-- ===== src/Text.antt =====
-- C strings as lists of bytes, without the terminating zero byte, and the functions of <string.h>,
-- <stdlib.h> and <stdio.h> that the server calls on them.
mod Compare
mod Search
mod Tokens
mod Decimal
mod Lines
pub mod Laws
pub use Compare.{bytes_eq_iff, bytes_eq_refl, bytes_eq_ne, ne_of_bytes_eq, Bytes, codes, Lacks}
pub use Lines.{fgets_lines-append, fgets_lines-nil}
pub use Decimal.{atol-print_nat, atol-print_nat_end, print_nat-IsDigit, length-print_nat}
unfoldable pub use Compare.{bytes_eq, to_lower, case_eq}
unfoldable pub use Search.{starts_with, strstr, strchr, strcspn_cut}
unfoldable pub use Lines.{fgets_lines}
unfoldable pub use Decimal.{ten_pow, print_nat, print_int, is_digit, is_space, atol}
unfoldable pub use Tokens.{drop_while, take_while, strtok, tokens, is_char}
