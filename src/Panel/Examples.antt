-- ===== src/Panel/Examples.antt =====
-- A panel that shows an item, is locked while an answer is on its way, and is paired again.
use mima.Prelude.{String, true, false, none, some, [], ◌∷◌, any, if◌then◌else◌, ◌≡◌, refl}
use mima.Panel.{
  Protocol, ready, PanelModel, set_locked, set_pairing, panel_run, panel_step, lock,
  is_security_generation_current,
}
use mima.Panel.Phases.{IsHidden, is_ending, panel_run-IsHidden}

abbrev words : Protocol
words = record {
  ExtSession = String;
  LocalDeviceRecord = String;
  PendingEnrollment = String;
  DecryptedExtensionItem = String;
}

abbrev shown : PanelModel words
shown = record {
  state = record {
    phase = ready;
    session = some "s";
    device = some "d";
    pending_enrollment = none;
    items = "i" ∷ [];
    tab_origin = none;
    tab_url = none;
    tab_id = none;
    search = "";
    offline = false;
    local_data_available = true;
    error = none;
  };
  security_generation = 3;
}

-- The flag for local data outlives the lock, the items do not.
locked_keeps_flag : (panel_step (set_locked none none) shown).state.local_data_available ≡ true
unfolding panel_step lock
locked_keeps_flag = refl

-- A pairing alone leaves the generation as it is.
pairing_keeps_generation :
    is_security_generation_current 3 (panel_run (set_pairing none ∷ []) shown) ≡ true
unfolding panel_run panel_step is_security_generation_current
pairing_keeps_generation = refl

shown-IsHidden : IsHidden shown
unfolding IsHidden
shown-IsHidden k = cc k

panel_run-IsHidden_example :
    IsHidden (panel_run (set_locked none none ∷ set_pairing none ∷ []) shown)
    × (is_security_generation_current 3
          (panel_run (set_locked none none ∷ set_pairing none ∷ []) shown)
        ≡ (if any (is_ending {P = words}) (set_locked none none ∷ set_pairing none ∷ [])
            then false
            else true))
panel_run-IsHidden_example =
    panel_run-IsHidden (set_locked none none ∷ set_pairing none ∷ []) shown shown-IsHidden
