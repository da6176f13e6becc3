-- ===== src/Witnesses/Databases.antt =====
-- The SQLite store and queue, and the book of leases that the stores keep.
use fluxo.Common.{
  ℕ, ◌≤◌, ◌==◌, ◌≡◌, refl, true, false, none, some, Option, String, List, [], ◌∷◌, lookup, insert,
  insert_int, lookup_int, eq_iff, if◌then◌else◌, arith, ◌==ₛ◌,
}
use fluxo.Api.{
  Context, cancellation, WorkflowEvent, workflow_started, workflow_failed, failed, Value, null,
  user, text, slice, Values, end, item, Err, Result, value, error, WorkflowInstance,
}
use fluxo.LeaseBook.{Book, LeaseCall, acquires, releases, book_calls}
use fluxo.Store.Refinement.{Keeps as StoreKeeps, answering_calls, answering_calls-Keeps}
use fluxo.Store.{Store, list_events}
use fluxo.Queue.{Task, start_workflow}
use fluxo.Sqlite.{works, Codec}
use fluxo.Sqlite.Encoding.{
  is_nil, Gob, IsGob, go_codec, payload_codec, go_codec-IsFaithful, encode_value, decode_value,
  try_decode_as_any,
}
use fluxo.Sqlite.Instances.{
  Instances, InstanceRow, update_instance, get_instance, try_acquire_lease,
}
use fluxo.Sqlite.Instances.RoundTrip.{updates, write, stored, get_instance-write}
use fluxo.Sqlite.Instances.Leases.{Keeps, lease_calls, all_told, lease_calls-Keeps}
use fluxo.Sqlite.Instances.StaleWrites.{ready_to_replay, ready_to_replay-unleased}
use fluxo.Sqlite.Events.{
  new_log, events_of, append_all, append_all_memory, SameLog, append_all-SameLog,
}
use fluxo.Sqlite.Tasks.{Tasks, to_row, new_table, enqueue, claim, leased, dequeue}
use fluxo.Sqlite.Tasks.Polling.{Polled, dequeue-Polled}
use fluxo.Sqlite.Tasks.Claims.{Claimed, claim-Claimed}
use fluxo.Sqlite.Tasks.Calls.{
  IsValid, new_table-IsValid, enqueue-IsValid, TaskCall, enqueues, claims, acks, task_calls,
}
use fluxo.Sqlite.Tasks.Exclusion.{is_row, claim_exclusion}
use fluxo.Witnesses.{instance_in, store_in, texts_differ, boom}

-- A map in an `any`: a slice of keys and values, or something else for the nil map.
abbrev box_pairs : List (ℕ × Value) → Values
box_pairs [] = end
box_pairs ((k, v) ∷ m) = item (user 0 k) (item v (box_pairs m))

abbrev box : Option (List (ℕ × Value)) → Value
box none = text "nil"
box (some m) = slice (box_pairs m)

abbrev unbox_pairs : Values → List (ℕ × Value)
unbox_pairs (item (user t k) (item v m)) = (k, v) ∷ unbox_pairs m
unbox_pairs _ = []

abbrev unbox : Value → Option (Option (List (ℕ × Value)))
unbox (text s) = some none
unbox (slice vs) = some (some (unbox_pairs vs))
unbox _ = none

unbox-box_pairs : (m : List (ℕ × Value)) → unbox_pairs (box_pairs m) ≡ m
unbox-box_pairs [] = refl
unbox-box_pairs ((k, v) ∷ m) = rw (unbox-box_pairs m) refl

-- Values kept as they are.
abbrev gob : Gob
gob = record {
  bytes = Value;
  encode = value;
  decode_any = value;
  decode_results = λ b. error boom;
  decode_as = λ c b. error boom;
  box = box;
  unbox = unbox;
  type_name = λ v. "any";
  error_text = λ e. "error";
  contains = λ s part. false;
}

unbox-box : (m : Option (List (ℕ × Value))) → unbox (box m) ≡ some m
unbox-box none = refl
unbox-box (some m) = rw (unbox-box_pairs m) refl

box-there : (m : Option (List (ℕ × Value))) → is_nil (box m) ≡ false
box-there none = refl
box-there (some m) = refl

gob-IsGob : IsGob gob
gob-IsGob = record {
  reads_back = λ v b e. ground (arith, e);
  box-unbox = unbox-box;
  there = box-there;
}

abbrev codec : Codec
codec = go_codec gob

abbrev payloads : Codec
payloads = payload_codec gob

abbrev error_text : Err → String
error_text e = "error"

abbrev row : InstanceRow codec.blob
row = record {
  workflow_name = "flow";
  workflow_version = "v1";
  workflow_fingerprint = "f";
  status = failed;
  current_step = 1;
  input = none;
  output = none;
  step_results = some (box (some []));
  err = "error";
  lease_owner = "";
  lease_expires_at = 0;
}

abbrev table : Instances codec.blob
table = ("i", row) ∷ []

abbrev inst : WorkflowInstance
inst = record (instance_in failed) { step_results = some []; err = some boom }

get_instance-write_example :
    get_instance codec error_text none "i" (write codec error_text boom updates inst table).0
    ≡ value (stored error_text inst)
unfolding encode_value update_instance lookup
get_instance-write_example =
    get_instance-write codec error_text (go_codec-IsFaithful gob gob-IsGob) inst [] refl boom
      updates "i" table refl

abbrev lease_book : Book
lease_book k = if "i" ==ₛ k then some (record { owner = ""; until = 0 }) else none

abbrev calls : List LeaseCall
calls = acquires "i" "one" 5 10 ∷ acquires "i" "two" 5 12 ∷ releases "j" "two" 13 ∷ []

lease_calls-Keeps_example :
    Keeps (lease_calls calls table).0 (book_calls calls lease_book).0
    × ((lease_calls calls table).1 ≡ all_told calls (book_calls calls lease_book).1)
unfolding lookup
lease_calls-Keeps_example = lease_calls-Keeps calls table lease_book (λ id. ground arith)

abbrev store : Store
store = store_in (instance_in failed)

answering_calls-Keeps_example :
    StoreKeeps (answering_calls calls store).0 (book_calls calls lease_book).0
    × ((answering_calls calls store).1 ≡ (book_calls calls lease_book).1)
unfolding lookup
answering_calls-Keeps_example =
    answering_calls-Keeps calls store lease_book
      (λ a b r ea eb. ground (arith, eq_iff "i" a, eq_iff "i" b)) (λ id. ground arith)

ready_to_replay-unleased_example :
    (try_acquire_lease works "i" "two" 100 20
      (ready_to_replay codec error_text "one" 100 10 "i" table).0).1
    ≡ value true
unfolding decode_value try_decode_as_any encode_value lookup insert ready_to_replay get_instance
    try_acquire_lease update_instance
ready_to_replay-unleased_example =
    ready_to_replay-unleased codec error_text "one" "two" "i" 100 100 10 20 table row refl refl refl

abbrev task : Task
task = record {
  id = "";
  type = start_workflow;
  workflow_name = "flow";
  instance_id = "i";
  signal_name = "";
  payload = null;
  enqueued_at = 0;
  not_before = 0;
  attempts = 0;
}

abbrev one_task : Tasks payloads.blob
one_task = (enqueue payloads none 5 task new_table).0

one_task-IsValid : IsValid one_task
one_task-IsValid = enqueue-IsValid payloads 5 task new_table new_table-IsValid

claim-Claimed_example : Claimed "one" 50 10 one_task (claim "one" 40 10 one_task)
claim-Claimed_example = claim-Claimed "one" 40 10 one_task one_task-IsValid.distinct

abbrev task_list : List TaskCall
task_list = enqueues 11 task ∷ claims 20 "two" 40 ∷ acks "x" "two" ∷ []

abbrev ctx : Context
ctx = record { done_at = some 50000000; reason = cancellation; has_engine = false }

-- Every number is written the same.
abbrev format_int : ℕ → String
format_int n = "1"

-- The database fails the statement that is issued at 20 ms.
abbrev faults : ℕ → Option Err
faults t = if t == 20000000 then some boom else none

abbrev DequeueReturned : Type 0
DequeueReturned =
    (res : Tasks payloads.blob × Result Task × ℕ) × (dequeue payloads format_int 4 faults ctx "one"
        40 0 one_task
      ≡ some res)
    × (0 ≤ res.2)
    × Polled payloads format_int faults "one" 40 one_task res

dequeue-Polled_example : DequeueReturned
dequeue-Polled_example =
    dequeue-Polled payloads format_int faults 3 ctx "one" 40 0 one_task 50000000
      one_task-IsValid.distinct refl (omega arith)

-- Every text is the number 1.
abbrev parse_int : String → Result ℕ
parse_int s = value 1

claim_exclusion_example :
    let q' = task_calls payloads parse_int task_list (claim "one" 40 10 one_task).0 in
    (lookup_int 1 q'.rows ≡ some (leased "one" 50 (to_row payloads 5 task (none))))
    × (is_row 1 (claim "two" 40 30 q').1 ≡ false)
unfolding encode_value enqueue new_table claim insert_int
claim_exclusion_example =
    claim_exclusion payloads parse_int "one" "two" 40 10 40 30 one_task 1
      (to_row payloads 5 task (none)) task_list one_task-IsValid (texts_differ "one" "" refl) refl
      (tt, (omega arith, (texts_differ "two" "one" refl, tt))) (omega arith)

abbrev started : WorkflowEvent
started = record {
  instance_id = "i";
  time = 10;
  type = workflow_started;
  workflow_name = "flow";
  workflow_version = "v1";
  step = none;
  detail = "";
}

abbrev two_events : List (ℕ × WorkflowEvent)
two_events = (10, started) ∷ (12, record started { time = 11; type = workflow_failed }) ∷ []

append_all-SameLog_example :
    SameLog (append_all two_events new_log) (append_all_memory two_events store)
unfolding new_log events_of lookup list_events
append_all-SameLog_example =
    append_all-SameLog two_events new_log store (omega arith, (omega arith, tt)) (λ id. refl)
