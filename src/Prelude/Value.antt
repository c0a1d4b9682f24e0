-- ===== src/Prelude/Value.antt =====
-- The JavaScript values that a request can hold, and the tests that the validators make of them.
use Prim.Native.Nat.{ℕ}
use mathlib.Core.Path.{◌≡◌, refl}
use mathlib.Core.Bool.{Bool, true, false}
use mathlib.Core.Option.{Option, none, some}
use code_arena.Prelude.Tests.{◌==◌, if◌then◌else◌, not}
use code_arena.Prelude.Lists.{is_nil}
use code_arena.Prelude.Text.{Text, text_eq, text_eq_self}

-- `decimal negative m e` is ± m / 10 ^ e, which every finite double is for some m and e.
pub data Number : Type 0 where
  nan : Number
  infinity : Bool → Number
  decimal : Bool → ℕ → ℕ → Number

mutual
  pub data Value : Type 0 where
    undefined null : Value
    boolean : Bool → Value
    number : Number → Value
    string : Text → Value
    array : Values → Value
    object : Fields → Value

  pub data Values : Type 0 where
    nil : Values
    cons : Value → Values → Values

  pub data Fields : Type 0 where
    end : Fields
    field : Text → Value → Fields → Fields

unfoldable pub lookup_field : Text → Fields → Value
lookup_field k end = undefined
lookup_field k (field name v fs) = if text_eq name k then v else lookup_field k fs

-- `v.k`, for a key that no prototype has
unfoldable pub get : Text → Value → Value
unfolding lookup_field
get k (object fs) = lookup_field k fs
get k _ = undefined

abbrev pub truthy : Value → Bool
truthy undefined = false
truthy null = false
truthy (boolean b) = b
truthy (number nan) = false
truthy (number (infinity negative)) = true
truthy (number (decimal negative m e)) = not (m == 0)
truthy (string s) = not (is_nil s)
truthy (array vs) = true
truthy (object fs) = true

-- `typeof v === 'object'`
abbrev pub is_object : Value → Bool
is_object null = true
is_object (array vs) = true
is_object (object fs) = true
is_object _ = false

-- the text of a value with `typeof v === 'string'`
abbrev pub as_string : Value → Option Text
as_string (string s) = some s
as_string _ = none

abbrev pub is_undefined : Value → Bool
is_undefined undefined = true
is_undefined _ = false

pub get-head : (k : Text) (v : Value) (fs : Fields) → get k (object (field k v fs)) ≡ v
unfolding get lookup_field
get-head k v fs = rw (text_eq_self k) refl

pub get-tail :
    (k name : Text) (v : Value) (fs : Fields)
    → text_eq name k ≡ false
    → get k (object (field name v fs)) ≡ get k (object fs)
unfolding get lookup_field
get-tail k name v fs e = rw e refl
