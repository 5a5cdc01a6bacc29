-- ===== src/Data/Identity/Next.antt =====
-- data/store.c: the identity behind `updt_next_identity`.
use cbank_system.Prelude.{
  suc, ◌+◌, ◌≤◌, ◌<◌, ◌≡◌, refl, ap, subst, Bool, true, false, List, [], ◌∷◌, map, some, length,
  if◌then◌else◌, All, arith, Bool-cases, inl, inr,
}
use cbank_system.Prelude.Ret.{ok, ◌>>=◌}
use cbank_system.Text.{Bytes, bytes_eq, bytes_eq_refl, print_nat}
use cbank_system.Orm.Files.{Files, put_file, contents_of}
use cbank_system.Orm.Filtering.{Doubles}
use cbank_system.Orm.Table.Append.{equals}
use cbank_system.Data.Identity.{db_id_tracker_section, get_next_identity, updt_next_identity}
use cbank_system.Data.Fields.{int_max}
use cbank_system.Data.Identity.Update.{bump, updt_next_identity-tracker_text}
use cbank_system.Data.Identity.Tracker.{Identity, tracker_text, IsIdentity}
use cbank_system.Data.Identity.Query.{entries_of, first_identity}

-- A number that can be counted up once more.
abbrev pub HasNext : Identity → Type 0
HasNext e = e.cur_id + 1 < int_max

pub bump-IsIdentity :
    (store_name : Bytes) (e : Identity) → IsIdentity e → HasNext e → IsIdentity (bump store_name e)
unfolding bump
bump-IsIdentity store_name e (filled, equals, semi, nl, short, small) next =
    (filled, equals, semi, nl, short, ground arith)

pub bumped-IsIdentity :
    (store_name : Bytes) (entries : List Identity)
    → All IsIdentity entries
    → All HasNext entries
    → All IsIdentity (map (bump store_name) entries)
bumped-IsIdentity store_name [] h next = tt
bumped-IsIdentity store_name (e ∷ entries) (he, h) (n, next) =
    (bump-IsIdentity store_name e he n, bumped-IsIdentity store_name entries h next)

map-if :
    (f : Identity → Identity) (b : Bool) (e : Identity) (entries : List Identity)
    → (if b then f e ∷ map f entries else map f entries)
      ≡ map f (if b then e ∷ entries else entries)
map-if f true e entries = refl
map-if f false e entries = refl

pub entries_of-bump :
    (store_name bumped : Bytes) (entries : List Identity)
    → entries_of store_name (map (bump bumped) entries)
      ≡ map (bump bumped) (entries_of store_name entries)
unfolding entries_of bump
entries_of-bump store_name bumped [] = refl
entries_of-bump store_name bumped (e ∷ entries) =
    rw (entries_of-bump store_name bumped entries)
      (map-if (bump bumped) (bytes_eq e.name store_name) e (entries_of store_name entries))

pub length-bumped :
    (store_name : Bytes) (entries : List Identity)
    → length (map (bump store_name) entries) ≡ length entries
length-bumped store_name [] = refl
length-bumped store_name (e ∷ entries) = ap suc (length-bumped store_name entries)

-- The first entry of a store belongs to it, and is one of the tracker's.
pub entries_of-first :
    (store_name : Bytes) (entries more : List Identity) (e : Identity)
    → All IsIdentity entries
    → All HasNext entries
    → entries_of store_name entries ≡ e ∷ more
    → IsIdentity e × HasNext e × (bytes_eq e.name store_name ≡ true)
unfolding entries_of
entries_of-first store_name [] more e h next first = cc
entries_of-first store_name (e' ∷ entries) more e (he, h) (n, next) first =
    elim (Bool-cases (bytes_eq e'.name store_name)) [
      | inl f ↦
          let first' = rw f at first in
          let same : e' ≡ e = cc in
          subst (λ (x : Identity). IsIdentity x × HasNext x × (bytes_eq x.name store_name ≡ true))
            same (he, n, f)
      | inr f ↦ entries_of-first store_name entries more e h next (rw f at first)
    ]

-- A tracker of stores, whose numbers can all be counted up, hands out the number of the first entry
-- of a store; and behind `updt_next_identity` for that store it hands out the next number.
pub get_next_identity-updt_next_identity :
    (d : Doubles) (files : Files) (store_name : Bytes) (entries more : List Identity) (e : Identity)
    → files db_id_tracker_section ≡ some (tracker_text entries)
    → All IsIdentity entries
    → All HasNext entries
    → length (entries_of store_name entries) ≤ 100
    → entries_of store_name entries ≡ e ∷ more
    → (get_next_identity d files store_name 50 ≡ ok (print_nat e.cur_id))
      × ((updt_next_identity files store_name
            >>= (λ files'. get_next_identity d files' store_name 50))
          ≡ ok (print_nat (suc e.cur_id)))
get_next_identity-updt_next_identity d files store_name entries more e at h next few first =
    let (he, n, owns) = entries_of-first store_name entries more e h next first in
    let bumped = map (bump store_name) entries in
    let files' = put_file files db_id_tracker_section (tracker_text bumped) in
    let later =
      first_identity d files' store_name bumped (map (bump store_name) more) (bump store_name e)
        (rw (bytes_eq_refl db_id_tracker_section) refl)
        (bumped-IsIdentity store_name entries h next) (bump-IsIdentity store_name e he n)
        (rw
          (
            entries_of-bump store_name store_name entries,
            length-bumped store_name (entries_of store_name entries),
          )
          few)
        (rw (entries_of-bump store_name store_name entries, first) refl) in
    (
      first_identity d files store_name entries more e at h he few first,
      rw (updt_next_identity-tracker_text files store_name entries (rw (at, contents_of) refl) h)
          (unfold bump in rw owns at later),
    )
