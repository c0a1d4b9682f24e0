-- ===== src/Accounts/Model.antt =====
-- backend/src/modules/users/user.model.js. Ids are their hexadecimal texts; the schema's setters, which
-- trim and lower a text, meet texts that are trimmed and lowered already.
use code_arena.Prelude.{Bool, Option, List}
use code_arena.Prelude.Text.{Text, codes, text_eq}
use code_arena.Prelude.Store.{find_one}

pub record Account : Type 0 where
  pub id : Text
  pub name : Text
  pub email : Text
  pub password_hash : Text
  pub role : Text
  pub is_active : Bool

abbrev pub user_role : Text
user_role = codes "USER"

abbrev pub has_email : Text → Account → Bool
has_email email a = text_eq a.email email

abbrev pub has_id : Text → Account → Bool
has_id id a = text_eq a.id id

-- `User.findOne({ email })` and `User.findById(id)`
unfoldable pub find_by_email : Text → List Account → Option Account
find_by_email email accounts = find_one (has_email email) accounts

unfoldable pub find_account : Text → List Account → Option Account
find_account id accounts = find_one (has_id id) accounts

-- The account as a client sees it.
pub record Profile : Type 0 where
  pub id : Text
  pub name : Text
  pub email : Text
  pub role : Text

abbrev pub profile : Account → Profile
profile a = record { id = a.id; name = a.name; email = a.email; role = a.role }
