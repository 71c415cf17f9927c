-- ===== src/Dbus/Clients/Once.antt =====
-- How often a prompt is completed (src/dbus/prompt.rs, state.rs, daemon.rs).
use secret_manager.Base.{
  ℕ, ◌+◌, ◌%◌, ◌^◌, ◌≤◌, ◌<◌, ◌≡◌, refl, sym, ap, ◌∙◌, inl, inr, Bool, true, false, Option, none,
  some, List, [], ◌∷◌, ◌++◌, map, arith, leb, ◌==◌, if◌then◌else◌, Bool-cases, length, is_empty,
  drop, all, Bytes, Text, text_eq, text_eq_iff, text_eq_refl, Result, ok, err,
}
use mathlib.Core.Path.{subst}
use secret_manager.Base.Maps.{
  Map, get, insert_key, remove_key, remove_keys, keys_where, get-insert_key, get-remove_key,
}
use secret_manager.Base.Decimal.{
  to_decimal, from_decimal, from-to_decimal, is_digit, to_decimal-all,
}
use secret_manager.Vault.Publish.{hex}
use secret_manager.Dbus.Paths.{prompts_prefix}
use secret_manager.Dbus.State.{
  Error, SessionEntry, ServiceState, initial, check_session_quota, check_prompt_quota,
  new_session_path, new_prompt_path, counted_path, prompt_path,
}
use secret_manager.Dbus.Clients.{
  Effect, refused, handed_out, completed, aborted, lock_again, aborted_task, or_empty, remove_last,
  Event, open_session, session_not_exported, close, new_prompt, prompt_not_exported, start_prompt,
  dismiss, claim_unlock, disclaim_unlock, finished, client_left, open_session_entry,
  session_checked, prompt_checked, close_found, close_session, new_prompt_entry, drop_prompt,
  register_task, dismiss_task, record_unlock, unrecord_found, unrecord_unlock, finish_prompt,
  lock_opened_again, reclaim_task, reclaim_prompt, reclaim_prompts, reclaim_client, run_event, run,
}

before_underscore : Text → Text
before_underscore [] = []
before_underscore (b ∷ bs) = let rest = before_underscore bs in if b == b'_' then [] else b ∷ rest

before_underscore-digits :
    (ds rest : Text) → all is_digit ds ≡ true → before_underscore (ds ++ (b'_' ∷ rest)) ≡ ds
unfolding before_underscore
before_underscore-digits [] rest h = refl
before_underscore-digits (d ∷ ds) rest h = ground (arith, before_underscore-digits ds rest)

-- The counter in a path of a prompt.
number : Text → ℕ
unfolding before_underscore
number path = from_decimal 0 (before_underscore (drop (length prompts_prefix + 1) path))

number-prompt_path : (n : ℕ) (suffix : Bytes) → number (prompt_path n suffix) ≡ n
unfolding number counted_path
number-prompt_path n suffix =
    ap (from_decimal 0) (before_underscore-digits (to_decimal n) (hex suffix) (to_decimal-all n))
    ∙ from-to_decimal n

-- How often a prompt is completed.
unfoldable pub times : {V : Type 0} → Text → List (Effect V) → ℕ
times path [] = 0
times path (completed p ∷ es) = times path es + (if text_eq p path then 1 else 0)
times path (refused e ∷ es) = times path es
times path (handed_out p ∷ es) = times path es
times path (aborted task ∷ es) = times path es
times path (lock_again id v ∷ es) = times path es

times-append :
    {V : Type 0} (path : Text) (a b : List (Effect V))
    → times path (a ++ b) ≡ times path a + times path b
unfolding times
times-append path [] b = omega arith
times-append path (completed p ∷ a) b = omega (arith, times-append path a b)
times-append path (refused e ∷ a) b = times-append path a b
times-append path (handed_out p ∷ a) b = times-append path a b
times-append path (aborted task ∷ a) b = times-append path a b
times-append path (lock_again id v ∷ a) b = times-append path a b

times-lock_again :
    {V : Type 0} (path : Text) (f : Text → Option V) (ids : List Text)
    → times path (map (λ id. lock_again id (f id)) ids) ≡ 0
unfolding times
times-lock_again path f [] = refl
times-lock_again path f (id ∷ ids) = times-lock_again path f ids

abbrev one_if : Option Text → ℕ
one_if none = 0
one_if (some owner) = 1

-- 1 where the prompt waits for its completion, else 0.
abbrev held : Text → Map Text → ℕ
held path m = one_if (get m path)

one_if_bound : (o : Option Text) → one_if o ≤ 1
one_if_bound none = omega arith
one_if_bound (some owner) = omega arith

one_if-none : (b : Bool) (o : Option Text) → one_if (if b then none else o) ≤ one_if o
one_if-none true o = omega arith
one_if-none false o = omega arith

held-remove_key : (k path : Text) (m : Map Text) → held path (remove_key k m) ≤ held path m
held-remove_key k path m =
    omega (arith, ap one_if (get-remove_key k path m), one_if-none (text_eq k path) (get m path))

held-remove_self : (path : Text) (m : Map Text) → held path (remove_key path m) ≡ 0
held-remove_self path m =
    ap one_if (get-remove_key path path m)
    ∙ ap (λ (b : Bool). one_if (if b then none else get m path)) (text_eq_refl path)

held-remove_keys :
    (ks : List Text) (path : Text) (m : Map Text) → held path (remove_keys ks m) ≤ held path m
unfolding remove_keys
held-remove_keys [] path m = omega arith
held-remove_keys (k ∷ ks) path m =
    omega (arith, held-remove_keys ks path (remove_key k m), held-remove_key k path m)

held-insert_key :
    (k path v : Text) (m : Map Text)
    → held path (insert_key k v m) ≤ held path m + (if text_eq k path then 1 else 0)
held-insert_key k path v m =
    omega (arith, ap one_if (get-insert_key k path v m), one_if_some (text_eq k path))
  where
    one_if_some :
        (b : Bool)
        → one_if (if b then some v else get m path) ≤ one_if (get m path) + (if b then 1 else 0)
    one_if_some true = omega arith
    one_if_some false = omega arith

-- How often a path with counter `k` may still be completed: it waits `w` times.
abbrev budget_at : ℕ → ℕ → ℕ → ℕ
budget_at k next w = if leb k next then w else 1

keep_budget :
    (k next w w' t : ℕ)
    → w' + t ≤ w
    → (next < k → w ≡ 0)
    → (t + budget_at k next w' ≤ budget_at k next w) × (next < k → w' ≡ 0)
keep_budget k next w w' t le fresh = elim (Bool-cases (leb k next)) [
  | inl e ↦ (rw e (omega arith), λ h. let z = fresh h in omega arith)
  | inr e ↦ let z = fresh (ground arith) in (rw e (omega arith), λ h. omega arith)
]

new_budget :
    (k next w w' : ℕ) (same : Bool)
    → w' ≤ w + (if same then 1 else 0)
    → w' ≤ 1
    → (same ≡ true → k ≡ next + 1)
    → (next < k → w ≡ 0)
    → (0 + budget_at k (next + 1) w' ≤ budget_at k next w) × (next + 1 < k → w' ≡ 0)
new_budget k next w w' true le one num fresh =
    let e = num refl in
    let large : leb k next ≡ false = ground arith in
    let within : leb k (next + 1) ≡ true = ground arith in
    (rw (large, within) (omega arith), λ h. absurd (omega arith))
new_budget k next w w' false le one num fresh =
    (ground (arith, fresh), λ h. let z = fresh (omega arith) in omega arith)

module _ {V C : Type 0} where
  abbrev waits : Text → ServiceState V C → ℕ
  waits path st = held path st.prompt_owners

  -- What no event but a new prompt does: count on, or make a prompt wait. What waited may be completed.
  record Settles (path : Text) (st st' : ServiceState V C) (effects : List (Effect V))
      : Type 0 where
    counter : st'.next_prompt ≡ st.next_prompt
    waiting : waits path st' + times path effects ≤ waits path st

  unmoved :
      (path : Text) (st st' : ServiceState V C) (effects : List (Effect V))
      → st'.next_prompt ≡ st.next_prompt
      → st'.prompt_owners ≡ st.prompt_owners
      → times path effects ≡ 0
      → Settles path st st' effects
  unmoved path st st' effects c o t = record {
    counter = c;
    waiting = let h = ap (held path) o in omega arith;
  }

  times-lock_opened_again :
      (path p : Text) (st : ServiceState V C) → times path (lock_opened_again p st).1 ≡ 0
  unfolding lock_opened_again
  times-lock_opened_again path p st =
      times-lock_again path (λ id. get st.collections id) (or_empty (get st.prompt_unlocked p))

  reclaim_task-Settles :
      (path : Text) (loaded : ℕ → Bool) (p : Text) (commit task : Option ℕ) (st : ServiceState V C)
      → Settles path st
          (reclaim_task loaded p commit task st).0
          (reclaim_task loaded p commit task st).1
  unfolding reclaim_task lock_opened_again times
  reclaim_task-Settles path loaded p commit none st =
      unmoved path st _ _ refl refl (times-lock_opened_again path p st)
  reclaim_task-Settles path loaded p none (some task) st =
      unmoved path st _ _ refl refl (times-lock_opened_again path p st)
  reclaim_task-Settles path loaded p (some gate) (some task) st = elim (Bool-cases (loaded gate)) [
    | inl e ↦ rw e (unmoved path st st [] refl refl refl)
    | inr e ↦ rw e (unmoved path st _ _ refl refl (times-lock_opened_again path p st))
  ]

  reclaim_prompts-Settles :
      (path : Text) (loaded : ℕ → Bool) (ps : List Text) (st : ServiceState V C)
      → Settles path st (reclaim_prompts loaded ps st).0 (reclaim_prompts loaded ps st).1
  unfolding reclaim_prompts reclaim_prompt times
  reclaim_prompts-Settles path loaded [] st = record { counter = refl; waiting = omega arith }
  reclaim_prompts-Settles path loaded (p ∷ ps) st =
      let st1 : ServiceState V C = record st {
        prompt_owners = remove_key p st.prompt_owners;
        prompt_commits = remove_key p st.prompt_commits;
        prompt_tasks = remove_key p st.prompt_tasks;
      } in
      let one =
        reclaim_task-Settles path loaded p (get st.prompt_commits p) (get st.prompt_tasks p) st1 in
      let (st2, effects) = reclaim_prompt loaded p st in
      let more = reclaim_prompts-Settles path loaded ps st2 in
      record {
        counter = more.counter ∙ one.counter;
        waiting = omega (
          arith,
          one.waiting,
          more.waiting,
          held-remove_key p path st.prompt_owners,
          times-append path effects (reclaim_prompts loaded ps st2).1,
        );
      }

  finish_prompt-Settles :
      (path p : Text) (st : ServiceState V C)
      → Settles path st (finish_prompt p st).0 (finish_prompt p st).1
  unfolding finish_prompt times
  finish_prompt-Settles path p st = from_owner (get st.prompt_owners p) refl
    where
      effects_of : Option Text → List (Effect V)
      effects_of o = if elim o [ none ↦ false | some x ↦ true ] then completed p ∷ [] else []

      from_owner :
          (o : Option Text)
          → get st.prompt_owners p ≡ o
          → Settles path st (finish_prompt p st).0 (effects_of o)
      from_owner none e = record {
        counter = refl;
        waiting = omega (arith, held-remove_key p path st.prompt_owners);
      }
      from_owner (some x) e = elim (Bool-cases (text_eq p path)) [
        | inl s ↦
            let same : p ≡ path = (text_eq_iff p path).0 s in
            let was : one_if (get st.prompt_owners path) ≡ 1 =
              ap (λ q. one_if (get st.prompt_owners q)) (sym same) ∙ ap one_if e in
            let gone : held path (remove_key p st.prompt_owners) ≡ 0 =
              ap (λ q. held path (remove_key q st.prompt_owners)) same
              ∙ held-remove_self path st.prompt_owners in
            record { counter = refl; waiting = rw s (omega (arith, gone, was)) }
        | inr s ↦ record {
          counter = refl;
          waiting = rw s (omega (arith, held-remove_key p path st.prompt_owners));
        }
      ]

  abbrev budget : Text → ServiceState V C → ℕ
  budget path st = budget_at (number path) st.next_prompt (waits path st)

  -- An event within the counter's range.
  record Spends (path : Text) (st st' : ServiceState V C) (effects : List (Effect V)) : Type 0 where
    spent : times path effects + budget path st' ≤ budget path st
    fresh : st'.next_prompt < number path → waits path st' ≡ 0
    counter : st'.next_prompt ≤ st.next_prompt + 1

  Settles-Spends :
      (path : Text) (st st' : ServiceState V C) (effects : List (Effect V))
      → (st.next_prompt < number path → waits path st ≡ 0)
      → Settles path st st' effects
      → Spends path st st' effects
  Settles-Spends path st st' effects fresh s =
      let (spent, fresh') =
        keep_budget (number path) st.next_prompt (waits path st) (waits path st')
          (times path effects) s.waiting fresh in
      record {
        spent = rw (s.counter) spent;
        fresh = rw (s.counter) fresh';
        counter = omega (arith, s.counter);
      }

  prompt_checked-Spends :
      (path owner : Text) (suffix : Bytes) (st : ServiceState V C) (r : Result Error (Unit {0}))
      → (st.next_prompt < number path → waits path st ≡ 0)
      → st.next_prompt + 1 < 2 ^ 64
      → Spends path st (prompt_checked owner suffix st r).0 (prompt_checked owner suffix st r).1
  unfolding prompt_checked new_prompt_path times
  prompt_checked-Spends path owner suffix st (err e) fresh small =
      Settles-Spends path st st (refused e ∷ []) fresh (unmoved path st st _ refl refl refl)
  prompt_checked-Spends path owner suffix st (ok _) fresh small =
      let n = (st.next_prompt + 1) % 2 ^ 64 in
      let next : n ≡ st.next_prompt + 1 = omega arith in
      let p = prompt_path n suffix in
      let num : number p ≡ st.next_prompt + 1 = number-prompt_path n suffix ∙ next in
      let (spent, fresh') =
        new_budget (number path) st.next_prompt (waits path st)
          (held path (insert_key p owner st.prompt_owners)) (text_eq p path)
          (held-insert_key p path owner st.prompt_owners)
          (one_if_bound (get (insert_key p owner st.prompt_owners) path))
          (λ e. ap number (sym ((text_eq_iff p path).0 e)) ∙ num) fresh in
      record {
        spent =
            subst
              (λ m.
                0 + budget_at (number path) m (held path (insert_key p owner st.prompt_owners))
                ≤ budget path st)
              (sym next) spent;
        fresh =
            subst (λ m. m < number path → held path (insert_key p owner st.prompt_owners) ≡ 0)
              (sym next) fresh';
        counter = omega arith;
      }

  close_found-Settles :
      (path p who : Text) (st : ServiceState V C) (o : Option (SessionEntry C))
      → Settles path st (close_found p who st o).0 (close_found p who st o).1
  unfolding close_found times
  close_found-Settles path p who st none = unmoved path st st _ refl refl refl
  close_found-Settles path p who st (some entry) = elim (Bool-cases (text_eq entry.owner who)) [
    | inl e ↦ rw e (unmoved path st _ [] refl refl refl)
    | inr e ↦ rw e (unmoved path st st _ refl refl refl)
  ]

  session_checked-Settles :
      (path owner : Text) (cipher : C) (suffix : Bytes) (st : ServiceState V C)
      (r : Result Error (Unit {0}))
      → Settles path st
          (session_checked owner cipher suffix st r).0
          (session_checked owner cipher suffix st r).1
  unfolding session_checked new_session_path times
  session_checked-Settles path owner cipher suffix st (err e) = unmoved path st st _ refl refl refl
  session_checked-Settles path owner cipher suffix st (ok _) = unmoved path st _ _ refl refl refl

  dismiss_task-Settles :
      (path p : Text) (loaded : ℕ → Bool) (gate : ℕ) (st : ServiceState V C)
      → Settles path st (dismiss_task loaded p gate st).0 (dismiss_task loaded p gate st).1
  unfolding dismiss_task times
  dismiss_task-Settles path p loaded gate st = elim (Bool-cases (loaded gate)) [
    | inl e ↦ rw e (unmoved path st st [] refl refl refl)
    | inr e ↦ rw e (unmoved path st _ _ refl refl (aborted_times (get st.prompt_tasks p)))
  ]
    where
      aborted_times : (o : Option ℕ) → times path (aborted_task {V = V} o) ≡ 0
      aborted_times none = refl
      aborted_times (some task) = refl

  unrecord_found-Settles :
      (path p id : Text) (st : ServiceState V C) (o : Option (List Text))
      → Settles path st (unrecord_found p id st o) []
  unfolding unrecord_found times
  unrecord_found-Settles path p id st none = unmoved path st st [] refl refl refl
  unrecord_found-Settles path p id st (some ids) =
      elim (Bool-cases (is_empty (remove_last id ids))) [
        | inl e ↦ rw e (unmoved path st _ [] refl refl refl)
        | inr e ↦ rw e (unmoved path st _ [] refl refl refl)
      ]

  run_event-Spends :
      (path : Text) (loaded : ℕ → Bool) (e : Event C) (st : ServiceState V C)
      → (st.next_prompt < number path → waits path st ≡ 0)
      → st.next_prompt + 1 < 2 ^ 64
      → Spends path st (run_event loaded e st).0 (run_event loaded e st).1
  unfolding run_event open_session_entry close_session new_prompt_entry drop_prompt register_task
      record_unlock unrecord_unlock reclaim_client times
  run_event-Spends path loaded (new_prompt owner suffix) st fresh small =
      prompt_checked-Spends path owner suffix st (check_prompt_quota owner st) fresh small
  run_event-Spends path loaded (open_session owner cipher suffix) st fresh small =
      Settles-Spends path st _ _ fresh
        (session_checked-Settles path owner cipher suffix st (check_session_quota owner st))
  run_event-Spends path loaded (session_not_exported p) st fresh small =
      Settles-Spends path st _ [] fresh (unmoved path st _ [] refl refl refl)
  run_event-Spends path loaded (close p who) st fresh small =
      Settles-Spends path st _ _ fresh (close_found-Settles path p who st (get st.sessions p))
  run_event-Spends path loaded (prompt_not_exported p) st fresh small =
      Settles-Spends path st _ [] fresh (record {
        counter = refl;
        waiting = omega (arith, held-remove_key p path st.prompt_owners);
      })
  run_event-Spends path loaded (start_prompt p task gate) st fresh small =
      Settles-Spends path st _ [] fresh (unmoved path st _ [] refl refl refl)
  run_event-Spends path loaded (dismiss p gate) st fresh small =
      Settles-Spends path st _ _ fresh (dismiss_task-Settles path p loaded gate st)
  run_event-Spends path loaded (claim_unlock p id) st fresh small =
      Settles-Spends path st _ [] fresh (unmoved path st _ [] refl refl refl)
  run_event-Spends path loaded (disclaim_unlock p id) st fresh small =
      Settles-Spends path st _ [] fresh
        (unrecord_found-Settles path p id st (get st.prompt_unlocked p))
  run_event-Spends path loaded (finished p) st fresh small =
      Settles-Spends path st _ _ fresh (finish_prompt-Settles path p st)
  run_event-Spends path loaded (client_left name) st fresh small =
      let left : ServiceState V C = record st {
        sessions =
            remove_keys (keys_where (λ (e : SessionEntry C). text_eq e.owner name) st.sessions)
              st.sessions;
      } in
      let s =
        reclaim_prompts-Settles path loaded (keys_where (λ o. text_eq o name) st.prompt_owners)
          left in
      Settles-Spends path st _ _ fresh (record { counter = s.counter; waiting = s.waiting })

  run_from-once :
      (path : Text) (es : List ((ℕ → Bool) × Event C)) (st : ServiceState V C)
      → (st.next_prompt < number path → waits path st ≡ 0)
      → st.next_prompt + length es < 2 ^ 64
      → times path (run es st).1 ≤ budget path st
  unfolding run times
  run_from-once path [] st fresh small = elim (Bool-cases (leb (number path) st.next_prompt)) [
    | inl e ↦ rw e (omega arith)
    | inr e ↦ rw e (omega arith)
  ]
  run_from-once path ((loaded, e) ∷ es) st fresh small =
      let s = run_event-Spends path loaded e st fresh (omega arith) in
      let (st1, effects) = run_event loaded e st in
      let ih = run_from-once path es st1 s.fresh (omega (arith, s.counter)) in
      omega (arith, s.spent, ih, times-append path effects (run es st1).1)

-- In a run of fewer than 2^64 events, in whatever order they come, no prompt is completed twice.
pub run-once :
    (V : Type 0) {C : Type 0} (es : List ((ℕ → Bool) × Event C)) (path : Text)
    → length es < 2 ^ 64
    → times path (run {V = V} es initial).1 ≤ 1
unfolding get
run-once V es path small =
    omega (arith, run_from-once {V = V} path es initial (λ h. refl) (omega arith), budget_bound)
  where
    budget_bound : budget_at (number path) 0 0 ≤ 1
    budget_bound = elim (Bool-cases (leb (number path) 0)) [
      | inl e ↦ rw e (omega arith)
      | inr e ↦ rw e (omega arith)
    ]
