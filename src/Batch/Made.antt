-- ===== src/Batch/Made.antt =====
-- The batches that the operations make, and what planning one of them gives.
use jmaplib.Prelude.{
  suc, Text, List, [], ◌∷◌, Option, Result, ok, err, ◌≡◌, ◌≢◌, sym, subst, arith, All,
}
use jmaplib.Prelude.Dict.{Dict}
use jmaplib.Json.{Json}
use jmaplib.Invocation.Handles.{Handle}
use jmaplib.Request.{Request}
use jmaplib.Request.Slices.{HasDistinctIds}
use jmaplib.Response.{Response}
use jmaplib.Capabilities.{ActiveCapabilities, MethodSpec}
use jmaplib.Batch.{Batch, BatchError, Objects, new_batch}
use jmaplib.Batch.Gates.{Arguments, gate}
use jmaplib.Batch.Queue.{Parse, add, add_gated, note}
use jmaplib.Batch.Sending.{absorb, hand_out, finish, calls_of}
use jmaplib.Batch.Numbering.{Distinct, IsCounted, IsNumbered, ids_of, queue-IsNumbered}
use jmaplib.Batch.Settled.{absorb-ids}

-- What a program can make of a new batch by its methods, in any order.
pub data Made {R : Type 0} : Batch R → Type 0 where
  started :
      (capabilities : ActiveCapabilities) (default_account : Option Text)
      (created_ids : Dict Text Text)
      → Made (new_batch capabilities default_account created_ids)
  added :
      (py : Objects) (batch : Batch R) (name : Text) (arguments : Arguments)
      (account_id : Option Text) (parse : MethodSpec → Parse R)
      → Made batch
      → Made (add py batch name arguments account_id parse).0
  handed_out :
      (request : Request R) (batch : Batch R) → Made batch → Made (hand_out request batch).1
  finished : (batch : Batch R) → Made batch → Made (finish batch)
  absorbed :
      (str_of : Json → Text) (response : Response) (batch : Batch R)
      → Made batch
      → Made (absorb str_of response batch).0

module _ {R : Type 0} where
  note-IsNumbered :
      (py : Objects) (spec : MethodSpec) (args : Arguments) (batch : Batch R)
      → IsNumbered batch
      → IsNumbered (note py spec args batch)
  unfolding note
  note-IsNumbered py spec args batch h = record { distinct = h.distinct; counted = h.counted }

  add_gated-IsNumbered :
      (py : Objects) (batch : Batch R) (name : Text) (parse : MethodSpec → Parse R)
      (gated : Result BatchError (MethodSpec × Arguments))
      → IsNumbered batch
      → IsNumbered (add_gated py batch name parse gated).0
  unfolding add_gated
  add_gated-IsNumbered py batch name parse (err e) h = h
  add_gated-IsNumbered py batch name parse (ok (spec, args)) h =
      queue-IsNumbered (note py spec args batch) (note-IsNumbered py spec args batch h) _ _

  absorb-counter :
      (str_of : Json → Text) (response : Response) (batch : Batch R)
      → batch.counter ≡ (absorb str_of response batch).0.counter
  unfolding absorb
  absorb-counter str_of response batch = ground arith

  Made-IsNumbered : (batch : Batch R) → Made batch → IsNumbered batch
  unfolding hand_out add
  Made-IsNumbered _ (started capabilities default_account created_ids) = record {
    distinct = tt;
    counted = tt;
  }
  Made-IsNumbered _ (added py batch name arguments account_id parse made) =
      add_gated-IsNumbered py batch name parse (gate py batch name arguments account_id)
        (Made-IsNumbered batch made)
  Made-IsNumbered _ (handed_out request batch made) =
      let before = Made-IsNumbered batch made in
      record { distinct = before.distinct; counted = before.counted }
  Made-IsNumbered _ (finished batch made) =
      let before = Made-IsNumbered batch made in
      record { distinct = before.distinct; counted = before.counted }
  Made-IsNumbered _ (absorbed str_of response batch made) =
      let before = Made-IsNumbered batch made in
      let same = sym (absorb-ids str_of response batch) in
      record {
        distinct = subst Distinct same before.distinct;
        counted =
            subst (λ n. All (IsCounted (suc n)) (ids_of (absorb str_of response batch).0.handles))
              (absorb-counter str_of response batch)
              (subst (All (IsCounted (suc batch.counter))) same before.counted);
      }

  calls_of-HasDistinctIds :
      (hs : List (Handle R)) → Distinct (ids_of hs) → HasDistinctIds (calls_of hs)
  calls_of-HasDistinctIds [] h = tt
  calls_of-HasDistinctIds (x ∷ xs) h = (others xs h.0, calls_of-HasDistinctIds xs h.1)
    where
      others :
          (ys : List (Handle R))
          → All (λ y. (x.call_id ≢ y) × (y ≢ x.call_id)) (ids_of ys)
          → All (λ c. (x.call_id ≢ c.0) × (c.0 ≢ x.call_id)) (calls_of ys)
      others [] k = tt
      others (y ∷ ys) k = (k.0, others ys k.1)

  -- However a batch was made, with calls added before or after requests were sent and responses
  -- absorbed, no two of its calls have one id.
  pub Made-HasDistinctIds : (batch : Batch R) → Made batch → HasDistinctIds (calls_of batch.handles)
  Made-HasDistinctIds batch made =
      calls_of-HasDistinctIds batch.handles (Made-IsNumbered batch made).distinct
