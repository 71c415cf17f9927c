-- ===== src/Dbus/Clients.antt =====
-- What clients do to the state, one function for each time that the lock is held: `open_session` and
-- the three calls that create a prompt (src/dbus/service.rs, collection.rs), `Session::close`
-- (session.rs), `prompt`, `dismiss`, `finish` and the unlock records (prompt.rs), and the reclaim
-- of what a client that left the bus held (src/daemon.rs).
pub mod Quota
pub mod Once
pub mod Left
use secret_manager.Base.{
  ℕ, zero, suc, ◌+◌, ◌-◌, ◌*◌, ◌/◌, ◌%◌, ◌^◌, ◌≤◌, ◌<◌, min, String, ◌≡◌, refl, sym, ap, ◌∙◌,
  fun_ext, ◌≢◌, ◌↔◌, ◌⊎◌, inl, inr, Bool, true, false, not, ◌&&◌, ◌||◌, Option, none, some, List,
  [], ◌∷◌, ◌++◌, map, append_assoc, append-nil, arith, ltb, leb, ◌==◌, if◌then◌else◌, ltb→lt,
  not-ltb→le, le→not-ltb, lt→ltb, ==_iff, tests, Bool-cases, Option-cases, length, is_empty,
  get_elem?, set, take, drop, all, any, All, length-append, append_inj, replicate, take-append,
  drop-append, take-take, drop-take, take-append-length, drop-append-length, take-append-drop,
  length-take, length-drop, length-set, Bytes, Text, bytes, text_eq, text_eq_iff, text_eq_refl,
  Result, ok, err, ◌>>=◌, ◌>>◌, ok_or, map_err, or_else, Result-cases,
}
use secret_manager.Base.Maps.{
  Map, get, contains_key, insert_key, remove_key, keys, keys_where, remove_keys, count_values,
}
use secret_manager.Dbus.State.{
  Error, no_session, SessionEntry, ServiceState, initial, vault, check_session_quota,
  check_prompt_quota, new_session_path, new_prompt_path,
}

-- What an event answers or sets off: a path handed out, the signal `Completed` of a prompt, a task
-- aborted, a collection to lock again.
pub data Effect (V : Type 0) : Type 0 where
  refused : Error → Effect V
  handed_out completed : Text → Effect V
  aborted : ℕ → Effect V
  lock_again : Text → Option V → Effect V

pub data Event (C : Type 0) : Type 0 where
  open_session : Text → C → Bytes → Event C
  session_not_exported : Text → Event C
  close : Text → Text → Event C
  new_prompt : Text → Bytes → Event C
  prompt_not_exported : Text → Event C
  start_prompt : Text → ℕ → ℕ → Event C
  dismiss : Text → ℕ → Event C
  claim_unlock disclaim_unlock : Text → Text → Event C
  finished : Text → Event C
  client_left : Text → Event C

-- `Vec::remove` at the `rposition` of an id.
unfoldable pub remove_last : Text → List Text → List Text
remove_last id [] = []
remove_last id (x ∷ xs) =
    let rest = remove_last id xs in
    if any (text_eq id) xs then x ∷ rest else if text_eq id x then xs else x ∷ xs

abbrev pub Outcome : Type 0 → Type 0 → Type 0
Outcome V C = ServiceState V C × List (Effect V)

abbrev aborted_task : {V : Type 0} → Option ℕ → List (Effect V)
aborted_task none = []
aborted_task (some task) = aborted task ∷ []

abbrev or_empty : Option (List Text) → List Text
or_empty none = []
or_empty (some ids) = ids

abbrev is_committed : (ℕ → Bool) → Option ℕ → Bool
is_committed loaded none = false
is_committed loaded (some gate) = loaded gate

module _ {V C : Type 0} where
  -- The second check of the quota and the entry, under one lock.
  session_checked : Text → C → Bytes → ServiceState V C → Result Error (Unit {0}) → Outcome V C
  unfolding new_session_path
  session_checked owner cipher suffix st (err e) = (st, refused e ∷ [])
  session_checked owner cipher suffix st (ok _) =
      let (path, st1) = new_session_path suffix st in
      (
        record st1 {
          sessions = insert_key path (record { owner = owner; cipher = cipher }) st1.sessions;
        },
        handed_out path ∷ [],
      )

  unfoldable pub open_session_entry : Text → C → Bytes → ServiceState V C → Outcome V C
  unfolding check_session_quota session_checked
  open_session_entry owner cipher suffix st =
      session_checked owner cipher suffix st (check_session_quota owner st)

  abbrev drop_session : Text → ServiceState V C → ServiceState V C
  drop_session path st = record st { sessions = remove_key path st.sessions }

  close_found : Text → Text → ServiceState V C → Option (SessionEntry C) → Outcome V C
  close_found path who st none = (st, refused no_session ∷ [])
  close_found path who st (some entry) =
      if text_eq entry.owner who then (drop_session path st, []) else (st, refused no_session ∷ [])

  unfoldable pub close_session : Text → Text → ServiceState V C → Outcome V C
  unfolding close_found
  close_session path who st = close_found path who st (get st.sessions path)

  prompt_checked : Text → Bytes → ServiceState V C → Result Error (Unit {0}) → Outcome V C
  unfolding new_prompt_path
  prompt_checked owner suffix st (err e) = (st, refused e ∷ [])
  prompt_checked owner suffix st (ok _) =
      let (path, st1) = new_prompt_path suffix st in
      (record st1 { prompt_owners = insert_key path owner st1.prompt_owners }, handed_out path ∷ [])

  unfoldable pub new_prompt_entry : Text → Bytes → ServiceState V C → Outcome V C
  unfolding check_prompt_quota prompt_checked
  new_prompt_entry owner suffix st = prompt_checked owner suffix st (check_prompt_quota owner st)

  unfoldable pub drop_prompt : Text → ServiceState V C → ServiceState V C
  drop_prompt path st = record st { prompt_owners = remove_key path st.prompt_owners }

  -- The task's handle and its commit gate.
  unfoldable pub register_task : Text → ℕ → ℕ → ServiceState V C → ServiceState V C
  register_task path task gate st = record st {
    prompt_tasks = insert_key path task st.prompt_tasks;
    prompt_commits = insert_key path gate st.prompt_commits;
  }

  -- `loaded` says which gates are claimed; `dismiss` does nothing where the claim fails.
  unfoldable pub dismiss_task : (ℕ → Bool) → Text → ℕ → ServiceState V C → Outcome V C
  dismiss_task loaded path gate st = if loaded gate then (st, []) else (
    record st { prompt_tasks = remove_key path st.prompt_tasks },
    aborted_task (get st.prompt_tasks path),
  )

  unfoldable pub record_unlock : Text → Text → ServiceState V C → ServiceState V C
  record_unlock path id st = record st {
    prompt_unlocked =
        insert_key path (or_empty (get st.prompt_unlocked path) ++ (id ∷ [])) st.prompt_unlocked;
  }

  unrecord_found : Text → Text → ServiceState V C → Option (List Text) → ServiceState V C
  unfolding remove_last
  unrecord_found path id st none = st
  unrecord_found path id st (some ids) =
      let rest = remove_last id ids in
      if is_empty rest
      then record st { prompt_unlocked = remove_key path st.prompt_unlocked }
      else record st { prompt_unlocked = insert_key path rest st.prompt_unlocked }

  unfoldable pub unrecord_unlock : Text → Text → ServiceState V C → ServiceState V C
  unfolding unrecord_found
  unrecord_unlock path id st = unrecord_found path id st (get st.prompt_unlocked path)

  unfoldable pub finish_prompt : Text → ServiceState V C → Outcome V C
  finish_prompt path st = (
    record st {
      prompt_tasks = remove_key path st.prompt_tasks;
      prompt_commits = remove_key path st.prompt_commits;
      prompt_unlocked = remove_key path st.prompt_unlocked;
      prompt_owners = remove_key path st.prompt_owners;
    },
    if contains_key st.prompt_owners path then completed path ∷ [] else [],
  )

  -- The vaults that the prompt had opened, for the caller to lock.
  unfoldable pub lock_opened_again : Text → ServiceState V C → Outcome V C
  lock_opened_again p st = (
    record st { prompt_unlocked = remove_key p st.prompt_unlocked },
    map (λ id. lock_again id (vault st id)) (or_empty (get st.prompt_unlocked p)),
  )

  reclaim_task : (ℕ → Bool) → Text → Option ℕ → Option ℕ → ServiceState V C → Outcome V C
  unfolding lock_opened_again
  reclaim_task loaded p commit none st = lock_opened_again p st
  reclaim_task loaded p commit (some task) st =
      if is_committed loaded commit
      then (st, [])
      else (let (st1, effects) = lock_opened_again p st in (st1, aborted task ∷ effects))

  unfoldable pub reclaim_prompt : (ℕ → Bool) → Text → ServiceState V C → Outcome V C
  unfolding reclaim_task
  reclaim_prompt loaded p st =
      reclaim_task loaded p (get st.prompt_commits p) (get st.prompt_tasks p) (record st {
        prompt_owners = remove_key p st.prompt_owners;
        prompt_commits = remove_key p st.prompt_commits;
        prompt_tasks = remove_key p st.prompt_tasks;
      })

  unfoldable pub reclaim_prompts : (ℕ → Bool) → List Text → ServiceState V C → Outcome V C
  unfolding reclaim_prompt
  reclaim_prompts loaded [] st = (st, [])
  reclaim_prompts loaded (p ∷ ps) st =
      let (st1, effects) = reclaim_prompt loaded p st in
      let (st2, more) = reclaim_prompts loaded ps st1 in (st2, effects ++ more)

  -- `watch_clients_once`, for one name that lost its owner.
  unfoldable pub reclaim_client : (ℕ → Bool) → Text → ServiceState V C → Outcome V C
  unfolding reclaim_prompts
  reclaim_client loaded name st =
      let held = keys_where (λ (e : SessionEntry C). text_eq e.owner name) st.sessions in
      reclaim_prompts loaded (keys_where (λ o. text_eq o name) st.prompt_owners)
        (record st { sessions = remove_keys held st.sessions })

  -- `loaded` may differ from event to event.
  unfoldable pub run_event : (ℕ → Bool) → Event C → ServiceState V C → Outcome V C
  unfolding open_session_entry close_session new_prompt_entry drop_prompt register_task dismiss_task
      record_unlock unrecord_unlock finish_prompt reclaim_client
  run_event loaded (open_session owner cipher suffix) st = open_session_entry owner cipher suffix st
  run_event loaded (session_not_exported path) st = (drop_session path st, [])
  run_event loaded (close path who) st = close_session path who st
  run_event loaded (new_prompt owner suffix) st = new_prompt_entry owner suffix st
  run_event loaded (prompt_not_exported path) st = (drop_prompt path st, [])
  run_event loaded (start_prompt path task gate) st = (register_task path task gate st, [])
  run_event loaded (dismiss path gate) st = dismiss_task loaded path gate st
  run_event loaded (claim_unlock path id) st = (record_unlock path id st, [])
  run_event loaded (disclaim_unlock path id) st = (unrecord_unlock path id st, [])
  run_event loaded (finished path) st = finish_prompt path st
  run_event loaded (client_left name) st = reclaim_client loaded name st

  -- A run of the daemon: the events in the order of the lock, each with the gates at its time.
  unfoldable pub run : List ((ℕ → Bool) × Event C) → ServiceState V C → Outcome V C
  unfolding run_event
  run [] st = (st, [])
  run ((loaded, e) ∷ es) st =
      let (st1, effects) = run_event loaded e st in
      let (st2, more) = run es st1 in (st2, effects ++ more)
