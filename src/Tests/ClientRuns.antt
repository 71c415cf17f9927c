-- ===== src/Tests/ClientRuns.antt =====
-- The theorems on the clients of the daemon, at concrete runs.
use secret_manager.Base.{
  ℕ, ◌≤◌, ◌≡◌, refl, inl, inr, Bool, true, false, List, [], ◌∷◌, arith, Bytes, Text, bytes, text_eq,
  text_eq_refl,
}
use secret_manager.Base.Maps.{get, count_values}
use secret_manager.Vault.Index.Sorted.{Has}
use secret_manager.Dbus.State.{SessionEntry, ServiceState, initial, vault, prompt_path}
use secret_manager.Dbus.Clients.{
  lock_again, Event, open_session, new_prompt, start_prompt, claim_unlock, finished, client_left,
  reclaim_client, run,
}
use secret_manager.Dbus.Clients.Quota.{IsWithinQuota, run-IsWithinQuota}
use secret_manager.Dbus.Clients.Once.{times, run-once}
use secret_manager.Dbus.Clients.Left.{reclaim_client-holds_none, reclaim_client-has_lock_again}

abbrev idle : ℕ → Bool
idle gate = false

abbrev suffix : Bytes
suffix = 1 ∷ 2 ∷ 3 ∷ 4 ∷ 5 ∷ 6 ∷ 7 ∷ 8 ∷ []

abbrev asked : Text
asked = prompt_path 1 suffix

-- A client opens a session and a prompt, unlocks a collection by it, and the prompt is completed
-- while the client leaves.
abbrev history : List ((ℕ → Bool) × Event Bytes)
history =
    (idle, open_session (bytes ":1.7") [] suffix)
    ∷ (idle, new_prompt (bytes ":1.7") suffix)
    ∷ (idle, start_prompt asked 1 1)
    ∷ (idle, claim_unlock asked (bytes "login"))
    ∷ (idle, finished asked)
    ∷ (idle, finished asked)
    ∷ (idle, client_left (bytes ":1.7"))
    ∷ []

run-IsWithinQuota_example : IsWithinQuota (run {V = ℕ} history initial).0
run-IsWithinQuota_example = run-IsWithinQuota history

run-once_example : times asked (run {V = ℕ} history initial).1 ≤ 1
run-once_example = run-once ℕ history asked (omega arith)

-- A client that leaves while its prompt, which has opened a collection, waits for its task.
abbrev busy : ServiceState ℕ Bytes
busy = record initial {
  collections = (bytes "login", 7) ∷ [];
  sessions = (bytes "s", record { owner = bytes ":1.7"; cipher = [] }) ∷ [];
  prompt_owners = (asked, bytes ":1.7") ∷ [];
  prompt_tasks = (asked, 1) ∷ [];
  prompt_commits = (asked, 1) ∷ [];
  prompt_unlocked = (asked, bytes "login" ∷ []) ∷ [];
}

reclaim_client-holds_none_example :
    (count_values
        (λ (e : SessionEntry Bytes). text_eq e.owner (bytes ":1.7"))
        (reclaim_client idle (bytes ":1.7") busy).0.sessions
      ≡ 0)
    × (count_values
          (λ o. text_eq o (bytes ":1.7"))
          (reclaim_client idle (bytes ":1.7") busy).0.prompt_owners
        ≡ 0)
reclaim_client-holds_none_example = reclaim_client-holds_none idle (bytes ":1.7") busy

reclaim_client-has_lock_again_example :
    Has
      (reclaim_client idle (bytes ":1.7") busy).1
      (lock_again (bytes "login") (vault busy (bytes "login")))
unfolding get
reclaim_client-has_lock_again_example =
    let found : text_eq asked asked ≡ true = text_eq_refl asked in
    reclaim_client-has_lock_again idle (bytes ":1.7") asked (bytes "login") (bytes "login" ∷ [])
      busy (rw found refl) (inr (rw found refl)) (rw found refl) (inl refl)
