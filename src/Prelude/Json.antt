-- ===== src/Prelude/Json.antt =====
-- JSON values, as `JSON.parse` gives them, and reading a property of one.
use release_radar.Prelude.{ℕ, Bool, true, false, String, Option, none, some, if◌then◌else◌, ◌==◌}
use text.Mathlib.Text.{◌==◌ as str_eq}

mutual
  pub data Json : Type 0 where
    null : Json
    bool : Bool → Json
    num : ℕ → Json
    str : String → Json
    arr : Items → Json
    obj : Fields → Json

  pub data Items : Type 0 where
    nil : Items
    cons : Json → Items → Items

  pub data Fields : Type 0 where
    end : Fields
    field : String → Json → Fields → Fields

abbrev pub find_field : String → Fields → Option Json
find_field k end = none
find_field k (field j v fs) = if str_eq j k then some v else find_field k fs

-- `v[k]` for a value that is neither `null` nor `undefined`; the texts and arrays of the program
-- have no property of the names that it reads.
abbrev pub property : String → Json → Option Json
property k (obj fs) = find_field k fs
property k v = none

-- `!v`
abbrev pub is_falsy : Json → Bool
is_falsy null = true
is_falsy (bool true) = false
is_falsy (bool false) = true
is_falsy (num n) = n == 0
is_falsy (str s) = str_eq s ""
is_falsy (arr xs) = false
is_falsy (obj fs) = false
