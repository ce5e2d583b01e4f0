-- ===== src/Purge/Clear/Ends.antt =====
-- Clearing a prefix ends (internal/purge/purge.go, clearPrefix).
use limewire_purge.Prelude.{
  ℕ, zero, suc, ◌+◌, ◌-◌, ◌*◌, ◌≤◌, ◌<◌, ◌≡◌, refl, sym, subst, ◌∙◌, Bool, true, false, inl, inr,
  List, [], ◌∷◌, Option, none, some, Bytes, Bool-cases, ltb, Step, ◌>>=◌, pure, call, arith,
}
use limewire_purge.Errors.{Err, Result, ok, err}
use limewire_purge.Pieceop.{keep_only}
use limewire_purge.Purge.Env.{Object, Options, Env, wait}
use limewire_purge.Purge.Clear.{
  Cleared, Round, Again, retry_after, list_failed, after_request, after_delete, delete_listed,
  listed, after_listing, one_round, rounds, clear_prefix, keys_of, preview, count_deleted, size_of,
  reasons, stopped, unless_stopped, send_batch, list_prefix, unknown_keys, start, backoff_ms,
}
use limewire_purge.Purge.Clear.Safety.{KeptByReads, wait-keeps}

-- A store that a deletion empties step by step: `left` bounds what is under the prefix, no read makes
-- it grow, and a deletion of the pieces that a listing has shown succeeds and makes it smaller.
-- Listings may fail, and the context, the lock and the limiter may stop the run.
pub record Draining {W : Type 0} (E : Env W) (oid : ℕ) (prefix : Bytes) (left : W → ℕ)
    (Shows : W → List Object → Type 0) : Type 0 where
  pub bounded : (n : ℕ) → KeptByReads E (λ w. left w ≤ n)
  pub still_shown : (objs : List Object) → KeptByReads E (λ w. Shows w objs)
  pub shown :
      (w : W) (objs : List Object)
      → (E.list_keys prefix 1000 w).0 ≡ ok objs
      → Shows (E.list_keys prefix 1000 w).1 objs
  pub accepted :
      (w : W) (objs : List Object) (batch : List Bytes)
      → Shows w objs
      → keep_only (keys_of objs) oid ≡ (batch, [])
      → ((E.delete_keys oid batch w).0.error ≡ none) × ((E.delete_keys oid batch w).0.failed ≡ [])
  pub drained :
      (w : W) (o : Object) (objs : List Object) (batch : List Bytes)
      → Shows w (o ∷ objs)
      → keep_only (keys_of (o ∷ objs)) oid ≡ (batch, [])
      → left (E.delete_keys oid batch w).1 < left w

suc_mul : (a c : ℕ) → suc a * c ≡ a * c + c
suc_mul a c = grind arith

mul_mono : (a b c : ℕ) → a ≤ b → a * c ≤ b * c
mul_mono a b c h = grind arith

abbrev returned {ℓ} : {A : Type ℓ} {W : Type 0} → Option A × W → Bool
returned (none, w) = false
returned (some a, w) = true

-- Rounds that are enough: for each piece all list failures in a row and one deletion, and the
-- failures that may still come in this row.
abbrev pub enough_rounds : ℕ → ℕ → ℕ → ℕ
enough_rounds max_retry left list_fails = left * (max_retry + 2) + (max_retry + 1 - list_fails)

count_deleted-list_fails :
    (size : Bytes → ℕ) (deleted : List Bytes) (s : Round)
    → (count_deleted size deleted s).list_fails ≡ s.list_fails
unfolding count_deleted
count_deleted-list_fails size [] s = refl
count_deleted-list_fails size (k ∷ deleted) s = count_deleted-list_fails size deleted _

module _ {W : Type 0} (E : Env W) (opt : Options) (oid : ℕ) (prefix : Bytes) (left : W → ℕ)
    (Shows : W → List Object → Type 0) (d : Draining E oid prefix left Shows) where
  abbrev needs : W → ℕ → ℕ
  needs w list_fails = enough_rounds opt.max_retry (left w) list_fails

  unless_stopped-returned :
      (interrupted : Option Err) (s : Round) (next : Step W Cleared) (w : W)
      → returned (next w) ≡ true
      → returned (unless_stopped interrupted s next w) ≡ true
  unfolding unless_stopped
  unless_stopped-returned (some e) s next w h = refl
  unless_stopped-returned none s next w h = h

  module _ (again : Again E opt oid prefix) (fuel : ℕ)
      (again_returned : (s : Round) (w : W)
        → needs w s.list_fails < fuel
        → returned (again s w) ≡ true) where
    retry_after-returned :
        (n : ℕ) (s : Round) (w : W)
        → needs w s.list_fails < fuel
        → returned (retry_after E opt oid prefix again n s w) ≡ true
    unfolding retry_after
    retry_after-returned n s w h =
        let (interrupted, w') = E.sleep (backoff_ms n) w in
        let less : left w' ≤ left w = (d.bounded (left w)).sleep (backoff_ms n) w (omega arith) in
        unless_stopped-returned interrupted s (again s) w' (
          again_returned s w'
            (omega (arith, h, mul_mono (left w') (left w) (opt.max_retry + 2) less)))

    list_failed-returned :
        (s : Round) (e : Err) (w : W)
        → needs w s.list_fails < suc fuel
        → returned (list_failed E opt oid prefix again s e w) ≡ true
    unfolding list_failed
    list_failed-returned s e w h = elim (Bool-cases (ltb opt.max_retry (s.list_fails + 1))) [
      | inl over ↦ rw over refl
      | inr under ↦
          let s' = record s { list_fails = s.list_fails + 1 } in
          rw under (retry_after-returned s'.list_fails s' w (ground (arith, h, under)))
    ]

    after_delete-returned :
        (objs : List Object) (batch deleted failed : List Bytes) (error : Option Err) (s : Round)
        (w : W)
        → error ≡ none
        → failed ≡ []
        → s.list_fails ≡ 0
        → needs w 0 < fuel
        → returned (
            after_delete E opt oid prefix again objs batch s
              (record { deleted = deleted; failed = failed; error = error })
              w)
          ≡ true
    unfolding after_delete after_request reasons
    after_delete-returned objs batch deleted failed (some e) s w no_error none_left none_failed h =
        absurd (ground (arith, no_error))
    after_delete-returned objs batch deleted (k ∷ failed) none s w no_error none_left none_failed
          h =
        absurd (ground (arith, none_left))
    after_delete-returned objs batch deleted [] none s w no_error none_left none_failed h =
        let s' = count_deleted (size_of objs) deleted s in
        again_returned s' w (
          subst (λ n. needs w n < fuel)
            (sym (count_deleted-list_fails (size_of objs) deleted s ∙ none_failed)) h)

    send_batch-returned :
        (o : Object) (objs : List Object) (batch : List Bytes) (s : Round) (w : W)
        → s.list_fails ≡ 0
        → Shows w (o ∷ objs)
        → keep_only (keys_of (o ∷ objs)) oid ≡ (batch, [])
        → left w * (opt.max_retry + 2) < suc fuel
        → returned (send_batch E opt oid prefix again (o ∷ objs) batch s w) ≡ true
    unfolding send_batch
    send_batch-returned o objs batch s w none_failed shows all_kept h =
        let (dl, w') = E.delete_keys oid batch w in
        let (no_error, none_left) = d.accepted w (o ∷ objs) batch shows all_kept in
        let less : left w' < left w = d.drained w o objs batch shows all_kept in
        after_delete-returned (o ∷ objs) batch dl.deleted dl.failed dl.error s w' no_error none_left
          none_failed
          (omega (
            arith,
            h,
            mul_mono (suc (left w')) (left w) (opt.max_retry + 2) less,
            suc_mul (left w') (opt.max_retry + 2),
          ))

    delete_listed-returned :
        (o : Object) (objs : List Object) (s : Round) (w : W)
        → s.list_fails ≡ 0
        → Shows w (o ∷ objs)
        → left w * (opt.max_retry + 2) < suc fuel
        → returned (delete_listed E opt oid prefix again (o ∷ objs) s w) ≡ true
    unfolding delete_listed
    delete_listed-returned o objs s w none_failed shows h =
        go (keep_only (keys_of (o ∷ objs)) oid) refl
      where
        go :
            (split : List Bytes × List Bytes)
            → split ≡ keep_only (keys_of (o ∷ objs)) oid
            → returned (
                (elim split.1 as (λ _. Step W Cleared) [
                  | k ∷ more ↦ pure (stopped s unknown_keys)
                  | [] ↦ (do
                    interrupted ← call (wait E)
                    unless_stopped interrupted s
                        (send_batch E opt oid prefix again (o ∷ objs) split.0 s))
                ])
                  w)
              ≡ true
        go (batch, k ∷ more) same = refl
        go (batch, []) same =
            unless_stopped-returned _ s (send_batch E opt oid prefix again (o ∷ objs) batch s)
              (wait E w).1
              (send_batch-returned o objs batch s (wait E w).1 none_failed
                (wait-keeps E (λ w. Shows w (o ∷ objs)) (d.still_shown (o ∷ objs)) w shows)
                (sym same)
                (omega (
                  arith,
                  h,
                  mul_mono (left (wait E w).1) (left w) (opt.max_retry + 2)
                      (wait-keeps E (λ w'. left w' ≤ left w) (d.bounded (left w)) w (omega arith)),
                )))

    after_listing-returned :
        (s : Round) (r : Result (List Object)) (w : W)
        → ((objs : List Object) → r ≡ ok objs → Shows w objs)
        → needs w s.list_fails < suc fuel
        → returned (after_listing E opt oid prefix again s r w) ≡ true
    unfolding after_listing listed
    after_listing-returned s (err e) w shows h = list_failed-returned s e w h
    after_listing-returned s (ok []) w shows h = refl
    after_listing-returned s (ok (o ∷ objs)) w shows h =
        delete_listed-returned o objs (record s { list_fails = 0 }) w refl (shows (o ∷ objs) refl)
          (omega (arith, h))

    one_round-returned :
        (s : Round) (w : W)
        → needs w s.list_fails < suc fuel
        → returned (one_round E opt oid prefix again s w) ≡ true
    unfolding one_round list_prefix
    one_round-returned s w h =
        let (interrupted, w') = wait E w in
        let (answer, w'') = E.list_keys prefix 1000 w' in
        let waited : left w' ≤ left w =
          wait-keeps E (λ v. left v ≤ left w) (d.bounded (left w)) w (omega arith) in
        let less : left w'' ≤ left w = (d.bounded (left w)).list_keys prefix 1000 w' waited in
        unless_stopped-returned interrupted s (list_prefix E opt oid prefix again s) w' (
          after_listing-returned s answer w'' (d.shown w')
            (omega (arith, h, mul_mono (left w'') (left w) (opt.max_retry + 2) less)))

  rounds-returned :
      (fuel : ℕ) (s : Round) (w : W)
      → needs w s.list_fails < fuel
      → returned (rounds E opt oid prefix fuel s w) ≡ true
  unfolding rounds
  rounds-returned zero s w h = absurd (omega (arith, h))
  rounds-returned (suc fuel) s w h =
      one_round-returned (rounds E opt oid prefix fuel) fuel (rounds-returned fuel) s w h

  some_of {ℓ} : {A : Type ℓ} (r : Option A × W) → returned r ≡ true → (a : A) × (r.0 ≡ some a)
  some_of (none, w) e = cc
  some_of (some a, w) e = (a, refl)

  clear_prefix-returned :
      (fuel : ℕ) (w : W)
      → enough_rounds opt.max_retry (left w) 0 < fuel
      → returned (clear_prefix E opt oid prefix fuel w) ≡ true
  unfolding clear_prefix preview
  clear_prefix-returned fuel w h = elim (Bool-cases opt.dry_run) [
    | inl dry ↦ rw dry refl
    | inr wet ↦ rw wet (rounds-returned fuel start w h)
  ]

  -- In a store where a deletion of the pieces that a listing has shown succeeds and leaves fewer, and
  -- where no read adds any, clearing a prefix returns a result, for every number of list failures and
  -- on every error, if the fuel exceeds the pieces left times the retries plus two, plus the retries
  -- plus one.
  pub clear_prefix-returns :
      (fuel : ℕ) (w : W)
      → enough_rounds opt.max_retry (left w) 0 < fuel
      → (c : Cleared) × ((clear_prefix E opt oid prefix fuel w).0 ≡ some c)
  clear_prefix-returns fuel w h =
      some_of (clear_prefix E opt oid prefix fuel w) (clear_prefix-returned fuel w h)
