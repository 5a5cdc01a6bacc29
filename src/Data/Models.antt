-- ===== src/Data/Models.antt =====
-- data/models.h and the answers of data/user_store.h and data/acc_store.h.
use cbank_system.Prelude.{ℕ, Bool, false, []}
use cbank_system.Text.{Bytes}

abbrev pub name_max : ℕ
name_max = 50

abbrev pub pwd_max : ℕ
pwd_max = 35

abbrev pub cpf_digits : ℕ
cpf_digits = 12

-- The sizes of an identity and of a date with its zero byte.
abbrev pub id_size : ℕ
id_size = 20

pub record BankUser : Type 0 where
  pub id : Bytes
  pub name : Bytes
  pub cpf : Bytes
  pub email : Bytes
  pub password : Bytes
  pub is_active : Bool
  pub created_at : Bytes
  pub updated_at : Bytes

-- A user of zero bytes.
abbrev pub no_user : BankUser
no_user = record {
  id = [];
  name = [];
  cpf = [];
  email = [];
  password = [];
  is_active = false;
  created_at = [];
  updated_at = [];
}

pub record Account (Double : Type 0) : Type 0 where
  pub id : Bytes
  pub user_id_fk : Bytes
  pub balance : Double
  pub created_at : Bytes
  pub updated_at : Bytes

pub record GetUserByFieldResponse : Type 0 where
  pub user : BankUser
  pub success : Bool

pub record GetAccountByFieldResponse (Double : Type 0) : Type 0 where
  pub account : Account Double
  pub success : Bool
