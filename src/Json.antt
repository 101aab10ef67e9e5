-- ===== src/Json.antt =====
-- JSON documents as Python holds them: what the protocol checks of src/deep_agent read from a
-- checkpoint, a resume or a budget binding. Numbers are whole; `negative n` is -(n + 1).
pub mod Shapes
use sanare_agent_core.Base.{
  contains, ℕ, suc, String, Bool, true, false, not, ◌&&◌, ◌||◌, Option, none, some, List, [], ◌∷◌,
  ◌==◌, if◌then◌else◌, str_eq,
}

mutual
  pub data Value : Type 0 where
    null : Value
    bool : Bool → Value
    int : ℕ → Value
    negative : ℕ → Value
    text : String → Value
    list : Items → Value
    dict : Fields → Value

  pub data Items : Type 0 where
    nil : Items
    item : Value → Items → Items

  pub data Fields : Type 0 where
    end : Fields
    field : String → Value → Fields → Fields

unfoldable pub elements : Items → List Value
elements nil = []
elements (item v vs) = v ∷ elements vs

unfoldable pub from_elements : List Value → Items
from_elements [] = nil
from_elements (v ∷ vs) = item v (from_elements vs)

-- d.get(k), with None for an absent key.
unfoldable pub get : String → Fields → Value
get k end = null
get k (field j v fs) = if str_eq j k then v else get k fs

unfoldable pub find : String → Fields → Option Value
find k end = none
find k (field j v fs) = if str_eq j k then some v else find k fs

unfoldable pub size : Fields → ℕ
size end = 0
size (field k v fs) = suc (size fs)

-- Every key is one of the list.
unfoldable pub keys_within : List String → Fields → Bool
keys_within ks end = true
keys_within ks (field k v fs) = contains k ks && keys_within ks fs

-- `a == b` in Python: True and 1 are equal, and so are dictionaries in any order of their keys.
unfoldable mutual
  pub eq : Value → Value → Bool
  eq null null = true
  eq (bool a) (bool b) = (a && b) || (not a && not b)
  eq (bool true) (int n) = n == 1
  eq (bool false) (int n) = n == 0
  eq (int n) (bool true) = n == 1
  eq (int n) (bool false) = n == 0
  eq (int m) (int n) = m == n
  eq (negative m) (negative n) = m == n
  eq (text s) (text t) = str_eq s t
  eq (list xs) (list ys) = eq_items xs ys
  eq (dict fs) (dict gs) = size fs == size gs && eq_fields fs gs
  eq _ _ = false

  pub eq_items : Items → Items → Bool
  eq_items nil nil = true
  eq_items (item x xs) (item y ys) = eq x y && eq_items xs ys
  eq_items _ _ = false

  pub eq_fields : Fields → Fields → Bool
  eq_fields end gs = true
  eq_fields (field k v fs) gs =
      elim (find k gs) [ none ↦ false | some w ↦ eq v w ] && eq_fields fs gs

-- Whether a field is absent or None.
abbrev pub is_null : Value → Bool
is_null null = true
is_null _ = false

-- bool(v)
unfoldable pub truthy : Value → Bool
truthy null = false
truthy (bool b) = b
truthy (int n) = not (n == 0)
truthy (negative n) = true
truthy (text s) = not (str_eq s "")
truthy (list nil) = false
truthy (list (item v vs)) = true
truthy (dict end) = false
truthy (dict (field k v fs)) = true

-- {**d, k: v}
unfoldable pub put : String → Value → Fields → Fields
put k v end = field k v end
put k v (field j w fs) = if str_eq j k then field k v fs else field j w (put k v fs)

-- k in d
unfoldable pub has : String → Fields → Bool
has k end = false
has k (field j v fs) = str_eq j k || has k fs
