-- ===== src/EncryptedFeed/Examples.antt =====
-- Runs of the encrypted event stream for an owner who has lost the key of a personal vault.
use mima.Prelude.{
  ℕ, String, false, Option, none, some, List, [], ◌∷◌, ◌++◌, ◌≡◌, refl, All, map, here, arith,
}
use mima.Access.Examples.{alice, fingerprint, lost_db, never_less}
use mima.Access.{get_vault_access, get_vault_authorization, require_current_envelope}
use mima.Access.Recovery.{
  list_personal_vault_recovery_candidates, recovery_rows, candidate_loop, owned_candidate,
  candidate_if, target_device_of, has_current_full_envelope,
}
use mima.Feed.{SyncEventRow, RowType, row_vault_crypto_changed, row_item_deleted, Connection}
use mima.EncryptedFeed.{
  Vaults, EncryptedVaultHeader, EncryptedSyncEvent, setting_up, thrown, StreamState,
  vault_crypto_changed, is_session_valid, answer_vault, vault_event_as, crypto_event,
  current_header,
}
use mima.EncryptedFeed.Steps.{
  Step, backlog_row, buffered_row, set_ready, listed, bus_row, step_as, run, open_stream,
  try_deliver, deliver_row, answer_row, standing_of, send,
}
use mima.EncryptedFeed.Silence.{bus_rows, rows_of, backlog_failure-silent}
use mima.EncryptedFeed.Confined.{Fits, run-IsEntitled}
use mima.EncryptedFeed.Entitled.{IsEntitled}

abbrev header : EncryptedVaultHeader
header = record {
  vault_id = "v1";
  key_epoch = 1;
  header_version = 1;
  blob = record { nonce = "n"; ciphertext = "c" };
  created_at = 30;
  created_by_device_id = "d1";
}

abbrev world : Vaults
world = record {
  database = lost_db;
  sessions = record { id = "s"; expires_at = 100; locked = false } ∷ [];
  vault_rekey_jobs = [];
  encrypted_vault_headers = header ∷ [];
  now = 50;
}

abbrev connection : Connection
connection = record { cursor = 4; user = alice; session_id = "s" }

abbrev row_of : ℕ → RowType → String → SyncEventRow
row_of id type vault_id = record {
  id = id;
  type = type;
  vault_id = vault_id;
  item_id = "i";
  payload = record {
    item = record { id = "i"; vault_id = vault_id; version = 1; secret_state = none; content = "" };
    access_changed = false;
    rekey_required = false;
    user_id = "";
    device_id = "";
    actor_device_id = "";
    profile_version = 0;
  };
}

abbrev start : StreamState
start = record {
  phase = setting_up;
  closed = false;
  last_sent = 4;
  buffer = [];
  known = "v1" ∷ [];
  sent = [];
}

abbrev setup_steps : List Step
setup_steps =
    bus_row (some world) (row_of 6 row_vault_crypto_changed "v1")
    ∷ backlog_row (some world) (row_of 5 row_item_deleted "v9")
    ∷ buffered_row (some world)
    ∷ set_ready
    ∷ []

backlog_failure-silent_example :
    let broken : StreamState =
      step_as fingerprint never_less start.phase connection
        (backlog_row none (row_of 5 row_item_deleted "v1"))
        start in
    ((run fingerprint never_less connection (set_ready ∷ listed world ∷ []) broken).sent ≡ [])
    × (run fingerprint never_less connection
          (bus_rows ((some world, row_of 6 row_item_deleted "v1") ∷ []))
          broken
        ≡ record start {
          phase = thrown;
          buffer = [] ++ rows_of ((some world, row_of 6 row_item_deleted "v1") ∷ []);
        })
backlog_failure-silent_example =
    backlog_failure-silent fingerprint never_less connection (row_of 5 row_item_deleted "v1") start
      (set_ready ∷ listed world ∷ []) ((some world, row_of 6 row_item_deleted "v1") ∷ []) refl refl
      (omega arith)

setup_steps-Fits : All (Fits (world ∷ [])) setup_steps
setup_steps-Fits = ((here, refl), ((here, refl), (here, (tt, tt))))

run-IsEntitled_example :
    All
      (IsEntitled fingerprint never_less (world ∷ []) alice)
      (run fingerprint never_less connection setup_steps
        (open_stream fingerprint never_less connection world)).sent
run-IsEntitled_example =
    run-IsEntitled fingerprint never_less (world ∷ []) connection world setup_steps setup_steps-Fits

abbrev headers_of : EncryptedSyncEvent → Option String
headers_of (vault_crypto_changed n state (some h)) = some h.vault_id
headers_of _ = none

-- The row of a vault that is closed to the user is answered by the cursor, and the change of the lost
-- vault with its header, for the restoration.
restored :
    map headers_of (run fingerprint never_less connection setup_steps start).sent
    ≡ none ∷ some "v1" ∷ []
unfolding run step_as try_deliver deliver_row answer_row answer_vault standing_of vault_event_as
    crypto_event current_header send is_session_valid get_vault_access get_vault_authorization
    require_current_envelope list_personal_vault_recovery_candidates recovery_rows candidate_loop
    owned_candidate candidate_if target_device_of has_current_full_envelope
restored = refl
