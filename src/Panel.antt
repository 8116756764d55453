-- ===== src/Panel.antt =====
-- apps/extension/src/panel-model.ts: the state of the extension's panel. The session, the device and the
-- items are those of the protocol, which the panel keeps without looking at them: `P` is their types.
pub mod Phases
pub mod Examples
use mima.Prelude.{
  ℕ, ◌+◌, String, Bool, true, false, ◌&&◌, ◌||◌, Option, none, some, List, [], ◌∷◌, ◌==◌, nat_eq,
  is_some, if◌then◌else◌, or_else,
}

pub record Protocol : Type 1 where
  pub ExtSession : Type 0
  pub LocalDeviceRecord : Type 0
  pub PendingEnrollment : Type 0
  pub DecryptedExtensionItem : Type 0

pub data PanelPhase : Type 0 where
  loading pairing awaiting_approval locked unlocking ready revoked error : PanelPhase

pub record PanelState (P : Protocol) : Type 0 where
  pub phase : PanelPhase
  pub session : Option P.ExtSession
  pub device : Option P.LocalDeviceRecord
  pub pending_enrollment : Option P.PendingEnrollment
  pub items : List P.DecryptedExtensionItem
  pub tab_origin : Option String
  pub tab_url : Option String
  pub tab_id : Option ℕ
  pub search : String
  pub offline : Bool
  pub local_data_available : Bool
  pub error : Option String

pub record PanelModel (P : Protocol) : Type 0 where
  pub state : PanelState P
  pub security_generation : ℕ

-- The methods; `set_locked` with the flag that its caller gives, if any.
pub data PanelOp (P : Protocol) : Type 0 where
  set_loading : PanelOp P
  set_pairing : Option String → PanelOp P
  set_awaiting_approval : P.PendingEnrollment → PanelOp P
  set_locked : Option String → Option Bool → PanelOp P
  set_unlocking : PanelOp P
  set_ready : List P.DecryptedExtensionItem → Bool → PanelOp P
  set_revoked : PanelOp P
  set_error : String → PanelOp P
  handle_crypto_worker_failure : String → PanelOp P
  bump_security_generation : PanelOp P

-- '此扩展设备已被撤销，请重新配对'
abbrev pub revoked_message : String
revoked_message = "此扩展设备已被撤销，请重新配对"

module _ {P : Protocol} where
  unfoldable pub clear_decrypted_state : PanelState P → PanelState P
  clear_decrypted_state s = record s {
    items = [];
    search = "";
    tab_id = none;
    tab_origin = none;
    tab_url = none;
    offline = false;
    local_data_available = false;
  }

  unfoldable pub lock : Option String → Option Bool → PanelModel P → PanelModel P
  unfolding clear_decrypted_state
  lock message available m = record {
    state = record (clear_decrypted_state m.state) {
      phase = locked;
      error = message;
      local_data_available = or_else available m.state.local_data_available;
    };
    security_generation = m.security_generation + 1;
  }

  unfoldable pub fail : String → PanelModel P → PanelModel P
  unfolding clear_decrypted_state
  fail message m = record {
    state = record (clear_decrypted_state m.state) { phase = error; error = some message };
    security_generation = m.security_generation + 1;
  }

  unfoldable pub panel_step : PanelOp P → PanelModel P → PanelModel P
  unfolding clear_decrypted_state lock fail
  panel_step set_loading m = record m { state = record (m.state) { phase = loading; error = none } }
  panel_step (set_pairing message) m = record m {
    state = record (clear_decrypted_state m.state) { phase = pairing; error = message };
  }
  panel_step (set_awaiting_approval pending) m = record m {
    state = record (clear_decrypted_state m.state) {
      pending_enrollment = some pending;
      phase = awaiting_approval;
      error = none;
    };
  }
  panel_step (set_locked message available) m = lock message available m
  panel_step set_unlocking m = record m {
    state = record (m.state) { phase = unlocking; error = none };
  }
  panel_step (set_ready items offline) m = record m {
    state = record (m.state) {
      items = items;
      offline = offline;
      local_data_available = true;
      phase = ready;
      error = none;
    };
  }
  panel_step set_revoked m = record {
    state = record (clear_decrypted_state m.state) {
      session = none;
      device = none;
      pending_enrollment = none;
      phase = revoked;
      error = some revoked_message;
    };
    security_generation = m.security_generation + 1;
  }
  panel_step (set_error message) m = fail message m
  panel_step (handle_crypto_worker_failure message) m =
      if is_some m.state.session && is_some m.state.device
      then lock (some message) none m
      else fail message m
  panel_step bump_security_generation m = record m {
    security_generation = m.security_generation + 1;
  }

  unfoldable pub panel_run : List (PanelOp P) → PanelModel P → PanelModel P
  panel_run [] m = m
  panel_run (op ∷ ops) m = panel_run ops (panel_step op m)

  unfoldable pub is_security_generation_current : ℕ → PanelModel P → Bool
  is_security_generation_current generation m = generation == m.security_generation
