-- ===== src/Task/Verify/Passing.antt =====
-- What a receipt that is accepted as a verification says, check by check.
use sanare_agent_core.Base.{
  true, Option, none, some, List, [], ◌∷◌, ==_iff, length, ◌≡◌, refl, sym, ◌∙◌, arith,
}
use sanare_agent_core.Base.Dict
use sanare_agent_core.Json
use sanare_agent_core.Json.{Value, null, int, text, dict, list, Fields, get, has, eq}
use sanare_agent_core.Json.Shapes.{items_of, is-text, is_count-int}
use sanare_agent_core.Task.{Host, Check, Plan}
use sanare_agent_core.Task.Verify.{
  Source, Sources, artifact_ok, check_passed, all_passed, checked_against, verify_receipt_ok,
  sources_from, verified_by,
}

-- A check passed on the artifact that the sources name, with its hash and its size.
pub record Passed (sources : Sources) (c : Check) (observed : Fields) : Type 0 where
  pub index : get "index" observed ≡ int c.index
  pub kind : get "kind" observed ≡ text c.kind
  pub status : get "status" observed ≡ text "passed"
  pub code : get "code" observed ≡ text "match"
  pub source : Source
  pub found : Dict.get c.path sources ≡ some source
  pub hash : get "artifact_sha256" observed ≡ text source.sha256
  pub bytes : get "size_bytes" observed ≡ int source.size_bytes

-- Every check of a plan passed, in order, and nothing else was reported.
abbrev pub AllPassed : Sources → List Check → List Value → Type 0
AllPassed sources [] [] = Unit {0}
AllPassed sources [] (v ∷ vs) = ⊥
AllPassed sources (c ∷ cs) [] = ⊥
AllPassed sources (c ∷ cs) (v ∷ vs) =
    ((observed : Fields) × (v ≡ dict observed) × Passed sources c observed)
    × AllPassed sources cs vs

-- The receipt of a passed verification of this plan.
pub record Passes (p : Plan) (receipt : Value) : Type 0 where
  pub fields : Fields
  pub read : receipt ≡ dict fields
  pub plan : get "plan_id" fields ≡ text p.plan_id
  pub digest : get "plan_sha256" fields ≡ text p.plan_sha256
  pub state : get "state" fields ≡ text "passed"
  pub sources : Sources
  pub hashes : sources_from [] (items_of (get "source_hashes" fields)) ≡ some sources
  pub checks : AllPassed sources p.checks (items_of (get "checks" fields))

artifact_ok-source :
    (observed : Fields) (o : Option Source)
    → artifact_ok observed o ≡ true
    → (s : Source) × (o ≡ some s)
      × (get "artifact_sha256" observed ≡ text s.sha256)
      × (get "size_bytes" observed ≡ int s.size_bytes)
unfolding artifact_ok
artifact_ok-source observed none h = cc
artifact_ok-source observed (some s) h = (
  s,
  refl,
  is-text (get "artifact_sha256" observed) s.sha256 (ground arith),
  is_count-int (get "size_bytes" observed) s.size_bytes (ground arith),
)

check_passed-Passed :
    (sources : Sources) (c : Check) (v : Value)
    → check_passed sources c v ≡ true
    → (observed : Fields) × (v ≡ dict observed) × Passed sources c observed
unfolding check_passed
check_passed-Passed sources c (dict observed) h =
    let (s, found, hash, bytes) =
      artifact_ok-source observed (Dict.get c.path sources) (ground arith) in
    (
      observed,
      refl,
      record {
        index = is_count-int (get "index" observed) c.index (ground arith);
        kind = is-text (get "kind" observed) c.kind (ground arith);
        status = is-text (get "status" observed) "passed" (ground arith);
        code = is-text (get "code" observed) "match" (ground arith);
        source = s;
        found = found;
        hash = hash;
        bytes = bytes;
      },
    )
check_passed-Passed sources c null h = cc
check_passed-Passed sources c (Json.bool b) h = cc
check_passed-Passed sources c (int n) h = cc
check_passed-Passed sources c (Json.negative n) h = cc
check_passed-Passed sources c (text s) h = cc
check_passed-Passed sources c (list xs) h = cc

all_passed-AllPassed :
    (sources : Sources) (cs : List Check) (vs : List Value)
    → length vs ≡ length cs
    → all_passed sources cs vs ≡ true
    → AllPassed sources cs vs
unfolding all_passed
all_passed-AllPassed sources [] [] n h = tt
all_passed-AllPassed sources [] (v ∷ vs) n h = omega arith
all_passed-AllPassed sources (c ∷ cs) [] n h = omega arith
all_passed-AllPassed sources (c ∷ cs) (v ∷ vs) n h =
    let first : check_passed sources c v ≡ true = ground arith in
    let rest : all_passed sources cs vs ≡ true = ground arith in
    (check_passed-Passed sources c v first, all_passed-AllPassed sources cs vs (omega arith) rest)

checked_against-sources :
    (host : Host) (p : Plan) (receipt : Fields) (o : Option Sources)
    → checked_against host p receipt o ≡ true
    → (sources : Sources) × (o ≡ some sources)
      × (all_passed sources p.checks (items_of (get "checks" receipt)) ≡ true)
unfolding checked_against
checked_against-sources host p receipt none h = cc
checked_against-sources host p receipt (some sources) h = (sources, refl, ground arith)

receipt_ok-parts :
    (p : Plan) (args : Value) (receipt : Fields)
    → verify_receipt_ok p args receipt ≡ true
    → (get "plan_id" receipt ≡ text p.plan_id)
      × (get "plan_sha256" receipt ≡ text p.plan_sha256)
      × (get "state" receipt ≡ text "passed")
      × (length (items_of (get "checks" receipt)) ≡ p.checks_count)
unfolding verify_receipt_ok
receipt_ok-parts p args receipt h = (
  is-text (get "plan_id" receipt) p.plan_id (ground arith),
  is-text (get "plan_sha256" receipt) p.plan_sha256 (ground arith),
  is-text (get "state" receipt) "passed" (ground arith),
  (==_iff (length (items_of (get "checks" receipt))) p.checks_count).0 (ground arith),
)

pub verified_by-Passes :
    (host : Host) (p : Plan) (args : Value) (receipt : Option Value)
    → length p.checks ≡ p.checks_count
    → verified_by host p args receipt ≡ true
    → (v : Value) × (receipt ≡ some v) × Passes p v
unfolding verified_by
verified_by-Passes host p args (some (dict receipt)) n h =
    let ok : verify_receipt_ok p args receipt ≡ true = ground arith in
    let against : checked_against host p receipt
          (sources_from [] (items_of (get "source_hashes" receipt)))
        ≡ true =
      ground arith in
    let (plan, digest, state, m) = receipt_ok-parts p args receipt ok in
    let (sources, hashes, all) =
      checked_against-sources host p receipt
        (sources_from [] (items_of (get "source_hashes" receipt))) against in
    (
      dict receipt,
      refl,
      record {
        fields = receipt;
        read = refl;
        plan = plan;
        digest = digest;
        state = state;
        sources = sources;
        hashes = hashes;
        checks =
            all_passed-AllPassed sources p.checks (items_of (get "checks" receipt)) (m ∙ sym n) all;
      },
    )
verified_by-Passes host p args none n h = cc
verified_by-Passes host p args (some null) n h = cc
verified_by-Passes host p args (some (Json.bool b)) n h = cc
verified_by-Passes host p args (some (int k)) n h = cc
verified_by-Passes host p args (some (Json.negative k)) n h = cc
verified_by-Passes host p args (some (text s)) n h = cc
verified_by-Passes host p args (some (list xs)) n h = cc
