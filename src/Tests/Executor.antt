-- ===== src/Tests/Executor.antt =====
-- An execution in a container that works, the output of a script in two chunks, and two files.
use dokan.Prelude.{
  ℕ, String, ◌≡◌, refl, true, false, some, none, List, [], ◌∷◌, ◌++◌, length, ltb, if◌then◌else◌,
  All, is_empty, arith,
}
use dokan.Prelude.Int.{pos}
use dokan.Prelude.Result.{Result}
use dokan.Json.{Value, Fields, string}
use dokan.Db.{Db, Stream, Log}
use dokan.Db.Queue.{ClaimedJob}
use dokan.Db.Retention.{max_log_seq}
use dokan.Exec.Redact.Hidden.{Hides}
use dokan.Exec.Pump.{Item, LogOutput, Ending, pump_logs}
use dokan.Exec.Pump.Plain.{lines_of}
use dokan.Exec.Pump.Appends.{shown, numbered, last_result, pump_logs-appends, pump_logs-Hides}
use dokan.Exec.Files.{Dir, Entries, capture_output}
use dokan.Exec.Files.Stored.{AllStored, capture_output-AllStored}
use dokan.Exec.Job.{Libraries, Executor, Docker, Host}
use dokan.Exec.Job.Executes.{execute, execute-IsExecutor}
use dokan.Worker.Retry.{IsExecutor}
use dokan.Tests.{two_pending, empty_object, run_one, job_one}
use dokan.Db.{Run}
use dokan.Db.Secrets.Cache.{empty_cache}
use dokan.Db.Runs.{find_run}
use dokan.Receipt.{verify_hmac}
use dokan.Receipt.Build.{Finished, build_receipt}
use dokan.Receipt.Genuine.{build_receipt-verify_hmac}
use dokan.Exec.Job.{Job, record_provenance, receipt_of}
use dokan.Exec.Job.Provenance.{Attests, record_provenance-Attests}

-- One chunk ends within a word.
abbrev chunk_text : List ℕ → String
chunk_text bytes = if ltb (length bytes) 2 then "the tok" else "en is s3cret\nbye\n"

abbrev chunks : List Item
chunks =
    Item.output (LogOutput.std_out (1 ∷ [])) ∷ Item.output (LogOutput.std_out (1 ∷ 2 ∷ [])) ∷ []

abbrev printed : List (Stream × String)
printed = (Stream.stdout, "the token is s3cret") ∷ (Stream.stdout, "bye") ∷ []

printed_lines : lines_of chunk_text "" "" chunks ≡ some printed
unfolding lines_of is_empty
printed_lines = refl

pump_logs-appends_example :
    let (end, after) = pump_logs "gone" chunk_text 1 ("s3cret" ∷ []) chunks two_pending in
    (after.logs ≡ [] ++ numbered 1 ("s3cret" ∷ []) (max_log_seq 1 two_pending) (shown printed))
    × ((seq : ℕ) × (end ≡ Ending.pumped seq (last_result printed none)))
pump_logs-appends_example =
    pump_logs-appends 1 ("s3cret" ∷ []) "gone" chunk_text chunks two_pending printed refl
      printed_lines

pump_logs-Hides_example :
    (new : List Log) × ((pump_logs "gone" chunk_text 1 ("s3cret" ∷ []) chunks two_pending).1.logs
      ≡ [] ++ new)
    × All (λ l. Hides l.line ("s3cret" ∷ [])) new
pump_logs-Hides_example =
    pump_logs-Hides 1 ("s3cret" ∷ []) "gone" chunk_text chunks two_pending printed refl
      printed_lines

abbrev hash_of : List ℕ → String
hash_of bytes = if ltb (length bytes) 2 then "h1" else "h2"

abbrev two_files : Dir
two_files =
    Dir.readable
      (Entries.file "a.txt" 1 (7 ∷ []) (Entries.file "b.txt" 2 (7 ∷ 8 ∷ []) Entries.no_more))

abbrev handles : Fields
handles = Fields.field "a.txt" (string "h1") (Fields.field "b.txt" (string "h2") Fields.end)

captured :
    (capture_output hash_of 60 two_files two_pending).0 ≡ Result.ok (some (Value.object handles))
unfolding capture_output is_empty
captured = refl

capture_output-AllStored_example :
    AllStored (capture_output hash_of 60 two_files two_pending).1 handles
capture_output-AllStored_example =
    capture_output-AllStored hash_of 60 two_files two_pending handles captured

abbrev pub toy : Libraries
toy = record {
  crypto = record {
    sha256 = λ bytes. 1 ∷ [];
    hmac_sha256 = λ key bytes. 2 ∷ [];
    verifying_key = λ seed. seed;
    sign = λ seed bytes. 3 ∷ [];
    is_key = λ bytes. true;
    verify_strict = λ key bytes sig. true;
    b64_encode = λ bytes. "b64";
    b64_decode = λ s. none;
    to_vec = λ v. [];
    from_slice = λ bytes. none;
  };
  to_string = λ v. "{}";
  from_str = λ s. none;
  from_utf8_lossy = chunk_text;
  debug = λ s. s;
  b64_encode = λ s. s;
  contains = λ v w. false;
  decrypt = λ s. s;
  nano_cpus = λ n. pos n;
  version = "1.0.0";
  db_error = "gone";
}

abbrev pub executor : Executor
executor = record {
  signer = record { key = 1 ∷ []; ed = 2 ∷ [] };
  max_timeout_secs = 3600;
  mem_bytes = pos 512;
  nano_cpus = pos 1;
  image_digest = λ image. none;
  home = some "/root";
}

abbrev pub healthy : ClaimedJob → Db → Host
healthy job db = record {
  now = 60;
  acquire = λ c. Result.ok "c1";
  create_exec = λ cid env. Docker.answers "e1";
  start_exec = Docker.answers true;
  items = chunks;
  cut_short = false;
  inspect_exec = Docker.answers (some (pos 0));
  output = two_files;
  outputs_written = true;
  result_written = true;
  receipt_written = true;
  secrets_cache = empty_cache;
  allowlist_fails = false;
  secrets_fail = false;
}

execute-IsExecutor_example : IsExecutor (execute toy executor healthy)
execute-IsExecutor_example = execute-IsExecutor toy executor healthy

first_run : find_run 1 two_pending ≡ some run_one
unfolding find_run
first_run = refl

abbrev finished : Finished
finished = record {
  run_id = 1;
  image = "python:3.12-slim";
  image_digest = some "sha256:ab";
  source = "print(1)";
  input = empty_object;
  result = some (string "done");
  exit_code = pos 0;
  network = false;
  input_blobs = none;
  output_blobs = some (Value.object handles);
  secrets_generation = pos 3;
}

build_receipt-verify_hmac_example :
    verify_hmac toy.crypto executor.signer
      (build_receipt toy.crypto executor.signer toy.to_string "1.0.0" finished)
    ≡ true
build_receipt-verify_hmac_example =
    build_receipt-verify_hmac toy.crypto executor.signer toy.to_string "1.0.0" finished
      (omega arith) (omega arith)

abbrev pub nightly : Job
nightly = record {
  run_id = 1;
  runtime = "python";
  source = "print(1)";
  input = empty_object;
  agent_id = none;
  network = false;
  mem_limit_mb = none;
  cpu_limit = none;
  input_blobs = none;
  capture_output = true;
  timeout_secs = none;
}

-- The disk is full when the result is to be recorded.
abbrev failing : Host
failing = record (healthy job_one two_pending) { result_written = false }

record_provenance-Attests_example :
    (s : Run) × (find_run 1 (
        record_provenance toy executor failing nightly "image"
          (some (string "done"))
          (pos 0)
          (some (Value.object handles))
          two_pending)
      ≡ some s)
    × Attests toy executor failing nightly
        (some (Value.object handles))
        (some (string "done"))
        (receipt_of toy executor failing nightly "image"
          (some (string "done"))
          (pos 0)
          (some (Value.object handles))
          two_pending)
        run_one
        s
record_provenance-Attests_example =
    record_provenance-Attests toy executor failing nightly "image" (some (string "done")) (pos 0)
      (some (Value.object handles)) two_pending run_one first_run
