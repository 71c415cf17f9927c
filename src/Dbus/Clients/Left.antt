-- ===== src/Dbus/Clients/Left.antt =====
-- What a client that left the bus leaves behind (src/daemon.rs).
use secret_manager.Base.{
  ℕ, ◌≡◌, refl, sym, ap, ◌∙◌, ◌⊎◌, inl, inr, Bool, true, false, not, ◌&&◌, ◌||◌, Option, none, some,
  List, [], ◌∷◌, ◌++◌, map, arith, if◌then◌else◌, Bool-cases, any, Text, text_eq, text_eq_iff,
  text_eq_refl,
}
use mathlib.Core.Path.{subst}
use secret_manager.Base.Maps.{
  Map, get, remove_key, remove_keys, keys_where, count_values, get-remove_key,
}
use secret_manager.Vault.Index.Sorted.{Has}
use secret_manager.Dbus.State.{SessionEntry, ServiceState, vault}
use secret_manager.Dbus.Clients.{
  lock_again, or_empty, is_committed, lock_opened_again, reclaim_task, reclaim_prompt,
  reclaim_prompts, reclaim_client,
}
use secret_manager.Dbus.Clients.Quota.{reclaim_prompts_owners}

module _ {A : Type 0} (p : A → Bool) where
  -- Every value that passes the test has its key in the list.
  covered : List Text → Map A → Bool
  covered ks [] = true
  covered ks ((k, v) ∷ m) = (not (p v) || any (text_eq k) ks) && covered ks m

  covered-more :
      (j : Text) (ks : List Text) (m : Map A) → covered ks m ≡ true → covered (j ∷ ks) m ≡ true
  unfolding covered
  covered-more j ks [] h = refl
  covered-more j ks ((k, v) ∷ m) h = ground (arith, covered-more j ks m)

  covered-keys_where : (m : Map A) → covered (keys_where p m) m ≡ true
  unfolding covered keys_where
  covered-keys_where [] = refl
  covered-keys_where ((k, v) ∷ m) =
      let ih = covered-keys_where m in
      let more = covered-more k (keys_where p m) m ih in ground (arith, text_eq_refl k)

  covered-remove_key :
      (k : Text) (ks : List Text) (m : Map A)
      → covered (k ∷ ks) m ≡ true
      → covered ks (remove_key k m) ≡ true
  unfolding covered remove_key
  covered-remove_key k ks [] h = refl
  covered-remove_key k ks ((j, v) ∷ m) h =
      ground (arith, covered-remove_key k ks m, text_eq_iff j k)

  covered-none : (m : Map A) → covered [] m ≡ true → count_values p m ≡ 0
  unfolding covered count_values
  covered-none [] h = refl
  covered-none ((k, v) ∷ m) h = ground (arith, covered-none m)

  covered-count :
      (ks : List Text) (m : Map A) → covered ks m ≡ true → count_values p (remove_keys ks m) ≡ 0
  unfolding remove_keys
  covered-count [] m h = covered-none m h
  covered-count (k ∷ ks) m h = covered-count ks (remove_key k m) (covered-remove_key k ks m h)

  has-keys_where :
      (k : Text) (v : A) (m : Map A) → get m k ≡ some v → p v ≡ true → Has (keys_where p m) k
  unfolding keys_where get
  has-keys_where k v [] h t = cc h
  has-keys_where k v ((j, w) ∷ m) h t =
      by_key (text_eq j k) (p w) refl refl (has-keys_where k v m) h t
    where
      by_key :
          (same passes : Bool)
          → text_eq j k ≡ same
          → p w ≡ passes
          → (get m k ≡ some v → p v ≡ true → Has (keys_where p m) k)
          → (if same then some w else get m k) ≡ some v
          → p v ≡ true
          → Has (if passes then j ∷ keys_where p m else keys_where p m) k
      by_key true true e f ih h t = inl ((text_eq_iff j k).0 e)
      by_key true false e f ih h t = cc (h, t, f)
      by_key false true e f ih h t = inr (ih h t)
      by_key false false e f ih h t = ih h t

has-append-left : {A : Type 0} (x : A) (xs ys : List A) → Has xs x → Has (xs ++ ys) x
has-append-left x [] ys h = elim h [ ]
has-append-left x (y ∷ xs) ys (inl e) = inl e
has-append-left x (y ∷ xs) ys (inr h) = inr (has-append-left x xs ys h)

has-append-right : {A : Type 0} (x : A) (xs ys : List A) → Has ys x → Has (xs ++ ys) x
has-append-right x [] ys h = h
has-append-right x (y ∷ xs) ys h = inr (has-append-right x xs ys h)

has-map : {A B : Type 0} (f : A → B) (x : A) (xs : List A) → Has xs x → Has (map f xs) (f x)
has-map f x [] h = elim h [ ]
has-map f x (y ∷ xs) (inl e) = inl (ap f e)
has-map f x (y ∷ xs) (inr h) = inr (has-map f x xs h)

get-remove_other :
    {A : Type 0} (q p : Text) (m : Map A) → text_eq q p ≡ false → get (remove_key q m) p ≡ get m p
get-remove_other q p m ne = get-remove_key q p m ∙ ap (λ (b : Bool). if b then none else get m p) ne

-- A prompt without a task, or whose task has not claimed its gate, is not left to its task.
abbrev IsReclaimed : (ℕ → Bool) → Option ℕ → Option ℕ → Type 0
IsReclaimed loaded commit task = (task ≡ none) ⊎ (is_committed loaded commit ≡ false)

module _ {V C : Type 0} where
  -- What a reclaim of other prompts leaves of `p`.
  record Untouched (p : Text) (st st' : ServiceState V C) : Type 0 where
    vaults : st'.collections ≡ st.collections
    tasks : get st'.prompt_tasks p ≡ get st.prompt_tasks p
    commits : get st'.prompt_commits p ≡ get st.prompt_commits p
    unlocked : get st'.prompt_unlocked p ≡ get st.prompt_unlocked p

  abbrev unheld : Text → ServiceState V C → ServiceState V C
  unheld p st = record st {
    prompt_owners = remove_key p st.prompt_owners;
    prompt_commits = remove_key p st.prompt_commits;
    prompt_tasks = remove_key p st.prompt_tasks;
  }

  lock_opened_again-Untouched :
      (q p : Text) (st : ServiceState V C)
      → text_eq q p ≡ false
      → Untouched p st (lock_opened_again q (unheld q st)).0
  unfolding lock_opened_again
  lock_opened_again-Untouched q p st ne = record {
    vaults = refl;
    tasks = get-remove_other q p st.prompt_tasks ne;
    commits = get-remove_other q p st.prompt_commits ne;
    unlocked = get-remove_other q p st.prompt_unlocked ne;
  }

  reclaim_task-Untouched :
      (loaded : ℕ → Bool) (q p : Text) (commit task : Option ℕ) (st : ServiceState V C)
      → text_eq q p ≡ false
      → Untouched p st (reclaim_task loaded q commit task (unheld q st)).0
  unfolding reclaim_task
  reclaim_task-Untouched loaded q p commit none st ne = lock_opened_again-Untouched q p st ne
  reclaim_task-Untouched loaded q p none (some task) st ne = lock_opened_again-Untouched q p st ne
  reclaim_task-Untouched loaded q p (some gate) (some task) st ne =
      elim (Bool-cases (loaded gate)) [
        | inl e ↦ rw e (record {
          vaults = refl;
          tasks = get-remove_other q p st.prompt_tasks ne;
          commits = get-remove_other q p st.prompt_commits ne;
          unlocked = refl;
        })
        | inr e ↦ rw e (lock_opened_again-Untouched q p st ne)
      ]

  lock_opened_again-has :
      (p id : Text) (ids : List Text) (st : ServiceState V C)
      → get st.prompt_unlocked p ≡ some ids
      → Has ids id
      → Has (lock_opened_again p st).1 (lock_again id (vault st id))
  unfolding lock_opened_again
  lock_opened_again-has p id ids st u h =
      has-map (λ i. lock_again i (vault st i)) id (or_empty (get st.prompt_unlocked p)) (rw u h)

  reclaim_task-has :
      (loaded : ℕ → Bool) (p id : Text) (ids : List Text) (commit task : Option ℕ)
      (st : ServiceState V C)
      → IsReclaimed loaded commit task
      → get st.prompt_unlocked p ≡ some ids
      → Has ids id
      → Has (reclaim_task loaded p commit task (unheld p st)).1 (lock_again id (vault st id))
  unfolding reclaim_task
  reclaim_task-has loaded p id ids commit none st r u h =
      lock_opened_again-has p id ids (unheld p st) u h
  reclaim_task-has loaded p id ids commit (some task) st (inl e) u h = cc e
  reclaim_task-has loaded p id ids commit (some task) st (inr e) u h =
      rw e (inr (lock_opened_again-has p id ids (unheld p st) u h))

  reclaim_prompts-has :
      (loaded : ℕ → Bool) (ps : List Text) (p id : Text) (ids : List Text) (st : ServiceState V C)
      → Has ps p
      → IsReclaimed loaded (get st.prompt_commits p) (get st.prompt_tasks p)
      → get st.prompt_unlocked p ≡ some ids
      → Has ids id
      → Has (reclaim_prompts loaded ps st).1 (lock_again id (vault st id))
  unfolding reclaim_prompts reclaim_prompt
  reclaim_prompts-has loaded [] p id ids st here r u h = elim here [ ]
  reclaim_prompts-has loaded (q ∷ ps) p id ids st here r u h = elim (Bool-cases (text_eq q p)) [
    | inl e ↦
        let same : p ≡ q = sym ((text_eq_iff q p).0 e) in
        has-append-left _ _ _ (
          reclaim_task-has loaded q id ids (get st.prompt_commits q) (get st.prompt_tasks q) st
            (subst (λ x. IsReclaimed loaded (get st.prompt_commits x) (get st.prompt_tasks x)) same
              r)
            (subst (λ x. get st.prompt_unlocked x ≡ some ids) same u) h)
    | inr e ↦
        let t =
          reclaim_task-Untouched loaded q p (get st.prompt_commits q) (get st.prompt_tasks q) st
            e in
        let st1 : ServiceState V C = (reclaim_prompt loaded q st).0 in
        let ih =
          reclaim_prompts-has loaded ps p id ids st1 (later here e) (rw (t.tasks, t.commits) r)
            (t.unlocked ∙ u) h in
        has-append-right _ _ _ (
          subst (λ c. Has (reclaim_prompts loaded ps st1).1 (lock_again id (get c id))) t.vaults ih)
  ]
    where
      later : Has (q ∷ ps) p → text_eq q p ≡ false → Has ps p
      later (inl e) ne = cc (ne, (text_eq_iff q p).1 e)
      later (inr m) ne = m

  -- Once a client has left the bus, it holds no session and no prompt.
  pub reclaim_client-holds_none :
      (loaded : ℕ → Bool) (name : Text) (st : ServiceState V C)
      → (count_values
            (λ (e : SessionEntry C). text_eq e.owner name)
            (reclaim_client loaded name st).0.sessions
          ≡ 0)
        × (count_values (λ o. text_eq o name) (reclaim_client loaded name st).0.prompt_owners ≡ 0)
  unfolding reclaim_client
  reclaim_client-holds_none loaded name st =
      let mine = λ (e : SessionEntry C). text_eq e.owner name in
      let asked = λ (o : Text). text_eq o name in
      let held = keys_where mine st.sessions in
      let ps = keys_where asked st.prompt_owners in
      let (a, b) =
        reclaim_prompts_owners loaded ps (record st { sessions = remove_keys held st.sessions }) in
      (
        ap (count_values mine) a
            ∙ covered-count mine held st.sessions (covered-keys_where mine st.sessions),
        ap (count_values asked) b
            ∙ covered-count asked ps st.prompt_owners (covered-keys_where asked st.prompt_owners),
      )

  -- Each collection that a prompt of a client had opened is among those to lock again when the client
  -- leaves the bus, unless that prompt's task is running behind its commit gate.
  pub reclaim_client-has_lock_again :
      (loaded : ℕ → Bool) (name p id : Text) (ids : List Text) (st : ServiceState V C)
      → get st.prompt_owners p ≡ some name
      → IsReclaimed loaded (get st.prompt_commits p) (get st.prompt_tasks p)
      → get st.prompt_unlocked p ≡ some ids
      → Has ids id
      → Has (reclaim_client loaded name st).1 (lock_again id (vault st id))
  unfolding reclaim_client
  reclaim_client-has_lock_again loaded name p id ids st owner r u h =
      let asked = λ (o : Text). text_eq o name in
      reclaim_prompts-has loaded (keys_where asked st.prompt_owners) p id ids _
        (has-keys_where asked p name st.prompt_owners owner (text_eq_refl name)) r u h
