-- ===== src/Dbus/Clients/Quota.antt =====
-- The quotas on the sessions and prompts of a client (src/dbus/service.rs, state.rs, daemon.rs).
use secret_manager.Base.{
  ℕ, ◌≤◌, ◌<◌, ◌≡◌, refl, ap, ◌∙◌, inl, inr, Bool, Option, none, some, List, [], ◌∷◌, arith,
  Bool-cases, is_empty, Bytes, Text, text_eq, text_eq_iff, Result, ok, err,
}
use mathlib.Core.Path.{subst}
use secret_manager.Base.Maps.{
  Map, get, insert_key, remove_keys, keys_where, count_values, count_values-insert_key,
  count_values-remove_keys,
}
use secret_manager.Dbus.State.{
  Error, SessionEntry, ServiceState, initial, check_session_quota, check_prompt_quota,
  new_session_path, new_prompt_path, max_sessions_per_sender, max_prompts_per_owner,
}
use secret_manager.Dbus.Clients.{
  remove_last, Event, open_session, session_not_exported, close, new_prompt, prompt_not_exported,
  start_prompt, dismiss, claim_unlock, disclaim_unlock, finished, client_left, open_session_entry,
  session_checked, prompt_checked, close_found, close_session, new_prompt_entry, drop_prompt,
  register_task, dismiss_task, record_unlock, unrecord_found, unrecord_unlock, finish_prompt,
  lock_opened_again, reclaim_task, reclaim_prompt, reclaim_prompts, reclaim_client, run_event, run,
}

-- An insertion for an owner that is below the limit keeps every owner at the limit or below.
insert_within :
    {A : Type 0} (owner_of : A → Text) (limit : ℕ) (k : Text) (v : A) (m : Map A)
    → ((owner : Text) → count_values (λ a. text_eq (owner_of a) owner) m ≤ limit)
    → count_values (λ a. text_eq (owner_of a) (owner_of v)) m < limit
    → (owner : Text) → count_values (λ a. text_eq (owner_of a) owner) (insert_key k v m) ≤ limit
insert_within owner_of limit k v m within below owner =
    let more = count_values-insert_key (λ a. text_eq (owner_of a) owner) k v m in
    elim (Bool-cases (text_eq (owner_of v) owner)) [
      | inl e ↦
          let same : owner_of v ≡ owner = (text_eq_iff (owner_of v) owner).0 e in
          let below' =
            subst (λ o. count_values (λ a. text_eq (owner_of a) o) m < limit) same below in
          ground arith
      | inr e ↦ let h = within owner in ground arith
    ]

module _ {V C : Type 0} where
  abbrev sessions_of : Text → ServiceState V C → ℕ
  sessions_of owner st = count_values (λ (e : SessionEntry C). text_eq e.owner owner) st.sessions

  abbrev prompts_of : Text → ServiceState V C → ℕ
  prompts_of owner st = count_values (λ o. text_eq o owner) st.prompt_owners

  pub record IsWithinQuota (st : ServiceState V C) : Type 0 where
    pub sessions : (owner : Text) → sessions_of owner st ≤ max_sessions_per_sender
    pub prompts : (owner : Text) → prompts_of owner st ≤ max_prompts_per_owner

  initial-IsWithinQuota : IsWithinQuota initial
  unfolding count_values
  initial-IsWithinQuota = record { sessions = λ owner. omega arith; prompts = λ owner. omega arith }

  under_session_quota :
      (owner : Text) (st : ServiceState V C)
      → check_session_quota owner st ≡ ok tt
      → sessions_of owner st < max_sessions_per_sender
  unfolding check_session_quota
  under_session_quota owner st h = ground (arith, h)

  under_prompt_quota :
      (owner : Text) (st : ServiceState V C)
      → check_prompt_quota owner st ≡ ok tt
      → prompts_of owner st < max_prompts_per_owner
  unfolding check_prompt_quota
  under_prompt_quota owner st h = ground (arith, h)

  session_checked-IsWithinQuota :
      (owner : Text) (cipher : C) (suffix : Bytes) (st : ServiceState V C)
      (r : Result Error (Unit {0}))
      → check_session_quota owner st ≡ r
      → IsWithinQuota st
      → IsWithinQuota (session_checked owner cipher suffix st r).0
  unfolding session_checked new_session_path
  session_checked-IsWithinQuota owner cipher suffix st (err e) c h = h
  session_checked-IsWithinQuota owner cipher suffix st (ok tt) c h = record {
    sessions =
        insert_within (λ (e : SessionEntry C). e.owner) max_sessions_per_sender _
          (record { owner = owner; cipher = cipher }) st.sessions h.sessions
          (under_session_quota owner st c);
    prompts = h.prompts;
  }

  prompt_checked-IsWithinQuota :
      (owner : Text) (suffix : Bytes) (st : ServiceState V C) (r : Result Error (Unit {0}))
      → check_prompt_quota owner st ≡ r
      → IsWithinQuota st
      → IsWithinQuota (prompt_checked owner suffix st r).0
  unfolding prompt_checked new_prompt_path
  prompt_checked-IsWithinQuota owner suffix st (err e) c h = h
  prompt_checked-IsWithinQuota owner suffix st (ok tt) c h = record {
    sessions = h.sessions;
    prompts =
        insert_within (λ o. o) max_prompts_per_owner _ owner st.prompt_owners h.prompts
          (under_prompt_quota owner st c);
  }

  -- A state that holds no more than another is within the quotas if that one is.
  pub record HoldsLess (st st' : ServiceState V C) : Type 0 where
    pub sessions : (owner : Text) → sessions_of owner st' ≤ sessions_of owner st
    pub prompts : (owner : Text) → prompts_of owner st' ≤ prompts_of owner st

  HoldsLess-IsWithinQuota :
      (st st' : ServiceState V C) → HoldsLess st st' → IsWithinQuota st → IsWithinQuota st'
  HoldsLess-IsWithinQuota st st' l h = record {
    sessions = λ owner. omega (arith, l.sessions owner, h.sessions owner);
    prompts = λ owner. omega (arith, l.prompts owner, h.prompts owner);
  }

  same_clients :
      (st st' : ServiceState V C)
      → st'.sessions ≡ st.sessions
      → st'.prompt_owners ≡ st.prompt_owners
      → HoldsLess st st'
  same_clients st st' a b = record {
    sessions = λ owner. rw a (omega arith);
    prompts = λ owner. rw b (omega arith);
  }

  fewer_sessions :
      (st st' : ServiceState V C) (ks : List Text)
      → st'.sessions ≡ remove_keys ks st.sessions
      → st'.prompt_owners ≡ st.prompt_owners
      → HoldsLess st st'
  fewer_sessions st st' ks a b = record {
    sessions = λ owner. rw a (count_values-remove_keys _ ks st.sessions);
    prompts = λ owner. rw b (omega arith);
  }

  fewer_prompts :
      (st st' : ServiceState V C) (ks : List Text)
      → st'.sessions ≡ st.sessions
      → st'.prompt_owners ≡ remove_keys ks st.prompt_owners
      → HoldsLess st st'
  fewer_prompts st st' ks a b = record {
    sessions = λ owner. rw a (omega arith);
    prompts = λ owner. rw b (count_values-remove_keys _ ks st.prompt_owners);
  }

  -- What a reclaim does to the maps that the quotas count.
  reclaim_task_owners :
      (loaded : ℕ → Bool) (p : Text) (commit task : Option ℕ) (st : ServiceState V C)
      → ((reclaim_task loaded p commit task st).0.sessions ≡ st.sessions)
        × ((reclaim_task loaded p commit task st).0.prompt_owners ≡ st.prompt_owners)
  unfolding reclaim_task lock_opened_again
  reclaim_task_owners loaded p commit none st = (refl, refl)
  reclaim_task_owners loaded p none (some task) st = (refl, refl)
  reclaim_task_owners loaded p (some gate) (some task) st = elim (Bool-cases (loaded gate)) [
    | inl e ↦ rw e (refl, refl)
    | inr e ↦ rw e (refl, refl)
  ]

  pub reclaim_prompts_owners :
      (loaded : ℕ → Bool) (ps : List Text) (st : ServiceState V C)
      → ((reclaim_prompts loaded ps st).0.sessions ≡ st.sessions)
        × ((reclaim_prompts loaded ps st).0.prompt_owners ≡ remove_keys ps st.prompt_owners)
  unfolding reclaim_prompts reclaim_prompt remove_keys
  reclaim_prompts_owners loaded [] st = (refl, refl)
  reclaim_prompts_owners loaded (p ∷ ps) st =
      let (a, b) = reclaim_prompts_owners loaded ps (reclaim_prompt loaded p st).0 in
      let (c, d) =
        reclaim_task_owners loaded p (get st.prompt_commits p) (get st.prompt_tasks p) _ in
      (a ∙ c, b ∙ ap (remove_keys ps) d)

  reclaim_client-HoldsLess :
      (loaded : ℕ → Bool) (name : Text) (st : ServiceState V C)
      → HoldsLess st (reclaim_client loaded name st).0
  unfolding reclaim_client
  reclaim_client-HoldsLess loaded name st =
      let held = keys_where (λ (e : SessionEntry C). text_eq e.owner name) st.sessions in
      let ps = keys_where (λ o. text_eq o name) st.prompt_owners in
      let (a, b) =
        reclaim_prompts_owners loaded ps (record st { sessions = remove_keys held st.sessions }) in
      record {
        sessions = λ owner. rw a (count_values-remove_keys _ held st.sessions);
        prompts = λ owner. rw b (count_values-remove_keys _ ps st.prompt_owners);
      }

  close_found-HoldsLess :
      (path who : Text) (st : ServiceState V C) (o : Option (SessionEntry C))
      → HoldsLess st (close_found path who st o).0
  unfolding close_found remove_keys
  close_found-HoldsLess path who st none = same_clients st st refl refl
  close_found-HoldsLess path who st (some entry) = elim (Bool-cases (text_eq entry.owner who)) [
    | inl e ↦ rw e (fewer_sessions st _ (path ∷ []) refl refl)
    | inr e ↦ rw e (same_clients st st refl refl)
  ]

  unrecord_found-HoldsLess :
      (path id : Text) (st : ServiceState V C) (o : Option (List Text))
      → HoldsLess st (unrecord_found path id st o)
  unfolding unrecord_found
  unrecord_found-HoldsLess path id st none = same_clients st st refl refl
  unrecord_found-HoldsLess path id st (some ids) =
      elim (Bool-cases (is_empty (remove_last id ids))) [
        | inl e ↦ rw e (same_clients st _ refl refl)
        | inr e ↦ rw e (same_clients st _ refl refl)
      ]

  run_event-IsWithinQuota :
      (loaded : ℕ → Bool) (e : Event C) (st : ServiceState V C)
      → IsWithinQuota st
      → IsWithinQuota (run_event {V = V} loaded e st).0
  unfolding run_event open_session_entry close_session new_prompt_entry drop_prompt register_task
      dismiss_task record_unlock unrecord_unlock finish_prompt remove_keys
  run_event-IsWithinQuota loaded (open_session owner cipher suffix) st h =
      session_checked-IsWithinQuota owner cipher suffix st (check_session_quota owner st) refl h
  run_event-IsWithinQuota loaded (session_not_exported path) st h =
      HoldsLess-IsWithinQuota st _ (fewer_sessions st _ (path ∷ []) refl refl) h
  run_event-IsWithinQuota loaded (close path who) st h =
      HoldsLess-IsWithinQuota st _ (close_found-HoldsLess path who st (get st.sessions path)) h
  run_event-IsWithinQuota loaded (new_prompt owner suffix) st h =
      prompt_checked-IsWithinQuota owner suffix st (check_prompt_quota owner st) refl h
  run_event-IsWithinQuota loaded (prompt_not_exported path) st h =
      HoldsLess-IsWithinQuota st _ (fewer_prompts st _ (path ∷ []) refl refl) h
  run_event-IsWithinQuota loaded (start_prompt path task gate) st h =
      HoldsLess-IsWithinQuota st _ (same_clients st _ refl refl) h
  run_event-IsWithinQuota loaded (dismiss path gate) st h = elim (Bool-cases (loaded gate)) [
    | inl e ↦ rw e h
    | inr e ↦ rw e (HoldsLess-IsWithinQuota st _ (same_clients st _ refl refl) h)
  ]
  run_event-IsWithinQuota loaded (claim_unlock path id) st h =
      HoldsLess-IsWithinQuota st _ (same_clients st _ refl refl) h
  run_event-IsWithinQuota loaded (disclaim_unlock path id) st h =
      HoldsLess-IsWithinQuota st _
        (unrecord_found-HoldsLess path id st (get st.prompt_unlocked path)) h
  run_event-IsWithinQuota loaded (finished path) st h =
      HoldsLess-IsWithinQuota st _ (fewer_prompts st _ (path ∷ []) refl refl) h
  run_event-IsWithinQuota loaded (client_left name) st h =
      HoldsLess-IsWithinQuota st _ (reclaim_client-HoldsLess loaded name st) h

  run_from-IsWithinQuota :
      (es : List ((ℕ → Bool) × Event C)) (st : ServiceState V C)
      → IsWithinQuota st
      → IsWithinQuota (run {V = V} es st).0
  unfolding run
  run_from-IsWithinQuota [] st h = h
  run_from-IsWithinQuota ((loaded, e) ∷ es) st h =
      run_from-IsWithinQuota es (run_event loaded e st).0 (run_event-IsWithinQuota loaded e st h)

  -- In whatever order clients open and close sessions and prompts, lose them or leave, no client
  -- ever holds more than 32 sessions or 8 prompts.
  pub run-IsWithinQuota :
      (es : List ((ℕ → Bool) × Event C)) → IsWithinQuota (run {V = V} es initial).0
  run-IsWithinQuota es = run_from-IsWithinQuota es initial initial-IsWithinQuota
