-- ===== src/Json/Shapes.antt =====
-- Tests on the shape of a document, as the receipts and plans of src/deep_agent are checked.
use sanare_agent_core.Base.{
  ==_iff, eq_iff, ap, ◌≡◌, ℕ, String, Bool, true, false, ◌&&◌, Option, none, some, List, [], ◌∷◌,
  leb, ◌==◌, contains,
}
use sanare_agent_core.Json
use sanare_agent_core.Json.{
  Value, null, int, text, dict, list, Fields, get, has, eq, keys_within, elements, truthy,
}

-- v == s
unfoldable pub is : Value → String → Bool
unfolding eq
is v s = eq v (text s)

unfoldable pub is_one_of : Value → List String → Bool
is_one_of (text s) ss = contains s ss
is_one_of v ss = false

all_in_fields : List String → Fields → Bool
all_in_fields [] fs = true
all_in_fields (k ∷ ks) fs = has k fs && all_in_fields ks fs

-- set(d) == {...}
unfoldable pub keys_are : List String → Fields → Bool
unfolding has all_in_fields
keys_are ks fs = keys_within ks fs && all_in_fields ks fs

-- v is False, v is True
unfoldable pub is_false : Value → Bool
is_false (Json.bool false) = true
is_false v = false

unfoldable pub is_true : Value → Bool
is_true (Json.bool true) = true
is_true v = false

unfoldable pub is_bool : Value → Bool
is_bool (Json.bool b) = true
is_bool v = false

unfoldable pub is_text : Value → Bool
is_text (text s) = true
is_text v = false

-- type(v) is int and v == n
unfoldable pub is_count : Value → ℕ → Bool
is_count (int m) n = m == n
is_count v n = false

-- type(v) is int and 0 <= v <= most
unfoldable pub is_count_within : Value → ℕ → Bool
is_count_within (int m) most = leb m most
is_count_within v most = false

unfoldable pub texts_satisfy : (String → Bool) → Value → Bool
texts_satisfy p (text s) = p s
texts_satisfy p v = false

-- v if it is a dictionary, else {}
unfoldable pub fields_of : Value → Fields
fields_of (dict fs) = fs
fields_of v = Json.end

-- v if it is a list, else []
unfoldable pub items_of : Value → List Value
items_of (list xs) = elements xs
items_of v = []

unfoldable pub is_dict : Value → Bool
is_dict (dict fs) = true
is_dict v = false

unfoldable pub is_list : Value → Bool
is_list (list xs) = true
is_list v = false

unfoldable pub text_of : Value → Option String
text_of (text s) = some s
text_of v = none

pub is-text : (v : Value) (s : String) → is v s ≡ true → v ≡ text s
unfolding is eq
is-text (text t) s h = ap text ((eq_iff t s).0 h)
is-text null s h = cc
is-text (Json.bool true) s h = cc
is-text (Json.bool false) s h = cc
is-text (int n) s h = cc
is-text (Json.negative n) s h = cc
is-text (list xs) s h = cc
is-text (dict fs) s h = cc

pub is_count-int : (v : Value) (n : ℕ) → is_count v n ≡ true → v ≡ int n
unfolding is_count
is_count-int (int m) n h = ap int ((==_iff m n).0 h)
is_count-int null n h = cc
is_count-int (Json.bool b) n h = cc
is_count-int (Json.negative m) n h = cc
is_count-int (text s) n h = cc
is_count-int (list xs) n h = cc
is_count-int (dict fs) n h = cc
