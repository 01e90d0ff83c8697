-- ===== src/Request/Tests.antt =====
-- Runs of the planner, and its theorem at a batch that is split.
use Prim.Native.String.{String}
use jmaplib.Prelude.{
  Text, codes, List, [], ◌∷◌, map, none, Result, ok, err, ◌≡◌, refl, arith, nat_eq, list_eq,
  list_beq,
}
use jmaplib.Invocation.{MethodCall, reference, str}
use jmaplib.Request.{
  Calls, Request, plan_requests, validate_references, cut_points, plan_loop, batch_too_large,
  PlanError,
}
use jmaplib.Request.Slices.{HasDistinctIds}
use jmaplib.Request.Total.{Planned, plan_requests-Planned}

planner : Unit {0}
unfolding plan_requests validate_references cut_points plan_loop
planner = tt

abbrev echo : String → MethodCall (Unit {0})
echo s = record {
  name = codes "Core/echo";
  arguments = (codes "s", str (codes s)) ∷ [];
  parse = λ _. ok tt;
}

abbrev query : MethodCall (Unit {0})
query = record { name = codes "Email/query"; arguments = []; parse = λ _. ok tt }

abbrev get_of : String → MethodCall (Unit {0})
get_of id = record {
  name = codes "Email/get";
  arguments =
      (
        codes "ids",
        reference
            (record { result_of = codes id; name = codes "Email/query"; path = codes "/ids" }),
      )
      ∷ [];
  parse = λ _. ok tt;
}

abbrev batch : Calls (Unit {0})
batch =
    (codes "c0", echo "a")
    ∷ (codes "c1", query)
    ∷ (codes "c2", get_of "c1")
    ∷ (codes "c3", echo "b")
    ∷ []

abbrev ids : Result PlanError (List (Request (Unit {0}))) → List (List Text)
ids (ok requests) = map (λ r. map (λ c. c.0) r.method_calls) requests
ids (err e) = []

-- The cut that would strand the reference is moved back.
plan_splits :
    ids (plan_requests batch [] 2 none)
    ≡ (codes "c0" ∷ []) ∷ (codes "c1" ∷ codes "c2" ∷ []) ∷ (codes "c3" ∷ []) ∷ []
unfolding planner
plan_splits = refl

plan_too_large :
    plan_requests batch [] 1 none ≡ err (batch_too_large (codes "c1" ∷ codes "c2" ∷ []) 1)
unfolding planner
plan_too_large = refl

batch-HasDistinctIds : HasDistinctIds batch
unfolding list_beq
batch-HasDistinctIds = ground arith

batch_valid : validate_references batch ≡ ok tt
unfolding planner
batch_valid = refl

plan_requests-Planned_example : Planned 2 batch (plan_requests batch [] 2 none)
plan_requests-Planned_example =
    plan_requests-Planned batch [] 2 none batch-HasDistinctIds batch_valid (omega arith)
