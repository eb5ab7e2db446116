-- ===== src/Tests/Calls.antt =====
-- Calls of the tools: a run that is refused, and an upload under a name that is taken.
use dokan.Prelude.{◌≡◌, refl, true, false, some, none, [], length}
use dokan.Db.Scripts.{find_script_by_name, newest_named}
use dokan.Mcp.Runs.{RunArgs, Daemon, run_script}
use dokan.Mcp.Runs.Enqueued.{is_accepted, run_script-refused}
use dokan.Mcp.Scripts.{UploadArgs, upload_script}
use dokan.Mcp.Scripts.Upsert.{upload_script-upsert}
use dokan.Tests.{two_pending, python_settings, script_one, empty_object}

abbrev daemon : Daemon
daemon = record {
  printer = record { to_text = λ v. "{}"; from_text = λ s. none; debug = λ s. s };
  sha256_hex = λ bytes. "digest";
  image_digest = λ image. none;
}

abbrev anonymous : RunArgs
anonymous = record {
  script_id = 1;
  input = some empty_object;
  agent_id = "  ";
  files = [];
  capture_output = false;
  cache = false;
  idempotency_key = none;
}

is_anonymous : is_accepted (run_script daemon 50 anonymous two_pending).0 ≡ false
unfolding run_script
is_anonymous = refl

run_script-refused_example : (run_script daemon 50 anonymous two_pending).1 ≡ two_pending
run_script-refused_example = run_script-refused daemon 50 anonymous two_pending is_anonymous

abbrev reprovisioned : UploadArgs
reprovisioned = record {
  name = "nightly";
  source = "print(2)";
  settings = python_settings;
  upsert = true;
  secrets = none;
}

named : find_script_by_name "nightly" two_pending ≡ some script_one
unfolding find_script_by_name newest_named
named = refl

upload_script-upsert_example : length (upload_script reprovisioned 3600 two_pending).1.scripts ≡ 1
upload_script-upsert_example =
    upload_script-upsert reprovisioned 3600 script_one two_pending refl named
