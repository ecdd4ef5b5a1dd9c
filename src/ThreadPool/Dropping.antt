-- ===== src/ThreadPool/Dropping.antt =====
-- What `stop` does to the handlers that are queued.
use svarog_io.Common.{ℕ, zero, suc, ◌<◌, ◌≤◌, ◌≡◌, refl, ◌∙◌, true, [], ◌∷◌, arith, false, ap}
use svarog_io.WorkQueue.{WorkQueue, push_item, stop}
use svarog_io.ThreadPool.{
  token_test, finished, running, closing, Pool, Steps, Reach, no_token, see_stopped, work, post,
  reset_guard, store_stopped, stop_handlers, here, later,
}
use svarog_io.ThreadPool.Reviving.{Steps-append, requests, joins}

module _ {ℓ} {H : Type ℓ} where
  -- A handler is posted to a pool that runs.
  posted_with :
      (n : ℕ) (h : H)
      → (b : Pool H) × Reach n b
        × (b.phase ≡ running)
        × (b.accepted ≡ h ∷ [])
        × (b.handlers ≡ record { items = h ∷ []; is_stopped = false })
        × (b.requested ≡ 0)
        × (b.joined ≡ 0)
        × (b.started ≡ [])
        × ((j : ℕ) → b.pc j ≡ token_test)
  unfolding push_item
  posted_with n h = (_, later here (post h refl), refl, refl, refl, refl, refl, refl, λ j. refl)

  -- `stop` is called and goes on until it has stopped the queue.
  stops :
      (n : ℕ) (b : Pool H)
      → b.phase ≡ running
      → (s : Pool H) × Steps n b s
        × (s.phase ≡ closing)
        × (s.is_stopped ≡ true)
        × (s.requested ≡ b.requested)
        × (s.joined ≡ b.joined)
        × (s.accepted ≡ b.accepted)
        × (s.started ≡ b.started)
        × (s.pc ≡ b.pc)
  unfolding stop
  stops n b on = (
    _,
    later (later (later here (reset_guard on)) (store_stopped refl)) (stop_handlers refl),
    refl,
    refl,
    refl,
    refl,
    refl,
    refl,
    refl,
  )

  -- The workers find the context stopped, one after another.
  workers_leave :
      (n : ℕ) (s : Pool H) (k : ℕ)
      → k ≤ n
      → s.is_stopped ≡ true
      → s.requested ≡ 0
      → ((j : ℕ) → s.pc j ≡ token_test)
      → (pc : ℕ → _) × Steps n s (record s { pc = pc })
        × ((j : ℕ) → j < k → pc j ≡ finished)
        × ((j : ℕ) → k ≤ j → pc j ≡ token_test)
  workers_leave n s zero le flag unasked fresh =
      (s.pc, here, λ j lt. absurd (omega (arith, lt)), λ j ge. fresh j)
  workers_leave n s (suc k) le flag unasked fresh =
      let (pc, r, gone, ahead) = workers_leave n s k (omega arith) flag unasked fresh in
      (
        _,
        later
            (later r
              (work k (omega arith) (no_token (ahead k (omega arith)) (ground (arith, unasked)))))
            (work k (omega arith) (see_stopped (ground arith) flag)),
        λ j lt. ground (arith, gone j, lt),
        λ j ge. ground (arith, ahead j, ge),
      )

  -- `stop` does not wait for the queued handlers: a pool of any number of threads can come to a
  -- state in which `stop` is not called yet and a handler is accepted, queued and not started, and
  -- from there to one in which `stop` has returned, with every thread joined, nothing else was
  -- accepted, and the handler was not started.
  pub stop_drops_queued :
      (n : ℕ) (h : H)
      → (b : Pool H) × Reach n b
        × (b.phase ≡ running)
        × (b.accepted ≡ h ∷ [])
        × (b.handlers.items ≡ h ∷ [])
        × (b.started ≡ [])
        × (s : Pool H) × Steps n b s
        × (s.phase ≡ closing)
        × (s.joined ≡ n)
        × (s.accepted ≡ h ∷ [])
        × (s.started ≡ [])
  stop_drops_queued n h =
      let (o, ro, po, accepted, queued, qo, jo, started, fresh) = posted_with n h in
      let (a, ra, pa, fa, qa, ja, aa, sa, same) = stops n o po in
      let (pc, rb, gone, _) =
        workers_leave n a n (omega arith) fa (qa ∙ qo) (λ j. ground (arith, same, fresh j)) in
      let b : Pool H = record a { pc = pc } in
      let (c, rc, (pc', _, ac, sc), qc, jc, ec) = requests n b n (omega arith) pa (qa ∙ qo) in
      let (d, rd, (pd, _, ad, sd), jd, qd, _) =
        joins n c n (omega arith) (pc' ∙ pa) qc (jc ∙ ja ∙ jo)
          (λ j lt. ground (arith, ec, gone j lt)) in
      (
        o,
        ro,
        po,
        accepted,
        ap (λ (q : WorkQueue H). q.items) queued,
        started,
        d,
        Steps-append {t = c} {u = d}
            (Steps-append {t = b} {u = c} (Steps-append {t = a} {u = b} ra rb) rc) rd,
        pd ∙ pc' ∙ pa,
        jd,
        ad ∙ ac ∙ aa ∙ accepted,
        sd ∙ sc ∙ sa ∙ started,
      )
