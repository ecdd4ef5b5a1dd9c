-- ===== src/Reactor/Select/Serving.antt =====
-- Which handlers a pass of the reactor on `poll` calls.
use svarog_io.Common.{
  ℕ, suc, ◌≡◌, ◌≢◌, refl, sym, ap, Bool, true, false, ◌||◌, List, [], ◌∷◌, ◌++◌, some,
  if◌then◌else◌, All, length, append_assoc, arith, Bool-cases, inl, inr, ◌∙◌,
}
use svarog_io.Reactor.Epoll.{returned}
use svarog_io.Reactor.Select.{
  Entry, Selector, Revents, PollOs, is_quiet, find_fd, erase_fd, deliver, poll_fds, do_run_one,
}

-- What stays of the table, and how many leave it.
abbrev pub unready {ℓ} : {H : Type ℓ} → List (Entry H) → List Revents → List (Entry H)
unready [] rs = []
unready (e ∷ es) [] = e ∷ es
unready (e ∷ es) (r ∷ rs) = let rest = unready es rs in if is_quiet r then e ∷ rest else rest

abbrev pub count_ready : List Revents → ℕ
count_ready [] = 0
count_ready (r ∷ rs) = let rest = count_ready rs in if is_quiet r then rest else suc rest

-- No two entries of a table have one descriptor.
abbrev pub Distinct {ℓ} : {H : Type ℓ} → List (Entry H) → Type ℓ
Distinct [] = Unit
Distinct (e ∷ es) = All (λ x. x.fd ≢ e.fd) es × Distinct es

All-snoc {ℓ κ} :
    {A : Type ℓ} (P : A → Type κ) (xs : List A) (e : A) → All P xs → P e → All P (xs ++ e ∷ [])
All-snoc P [] e h k = (k, tt)
All-snoc P (x ∷ xs) e (h, hs) k = (h, All-snoc P xs e hs k)

All-intro {ℓ κ} : {A : Type ℓ} {P : A → Type κ} (f : (a : A) → P a) (xs : List A) → All P xs
All-intro f [] = tt
All-intro f (x ∷ xs) = (f x, All-intro f xs)

-- The handlers of the ready entries called on one world, from the first entry to the last, each with
-- whether `POLLERR`, `POLLHUP` or `POLLNVAL` was reported for its own descriptor.
abbrev pub call_ready {ℓ} :
    {H W : Type ℓ} → (H → Bool → W → W) → List (Entry H) → List Revents → W → W
call_ready act [] rs w = w
call_ready act (e ∷ es) [] w = w
call_ready act (e ∷ es) (r ∷ rs) w =
    call_ready act es rs (if is_quiet r then w else act e.handler (r.err || r.hup || r.nval) w)

module _ {ℓ} {H W : Type ℓ} (os : PollOs H W) where
  -- Handlers that leave the reactor alone: calling one changes the rest of the world, as `act` says.
  abbrev pub IsPassive : (H → Bool → W → W) → Type ℓ
  IsPassive act =
      (h : H) (error : Bool) (s : Selector H W)
      → os.call h error s ≡ record s { world = act h error s.world }

  find_behind :
      (e : Entry H) (kept es : List (Entry H))
      → All (λ x. x.fd ≢ e.fd) kept
      → (find_fd e.fd (kept ++ e ∷ es) ≡ some e) × (erase_fd e.fd (kept ++ e ∷ es) ≡ kept ++ es)
  unfolding find_fd erase_fd
  find_behind e [] es h = (ground arith, ground arith)
  find_behind e (x ∷ kept) es (d, h) =
      let rest = find_behind e kept es h in (ground (arith, d, rest.0), ground (arith, d, rest.1))

  deliver_done : (rs : List Revents) (s : Selector H W) → deliver os [] rs s ≡ (s, 0)
  unfolding deliver
  deliver_done rs s = refl

  deliver_quiet :
      (e : Entry H) (es : List (Entry H)) (r : Revents) (rs : List Revents) (s : Selector H W)
      → is_quiet r ≡ true
      → deliver os (e ∷ es) (r ∷ rs) s ≡ deliver os es rs s
  unfolding deliver
  deliver_quiet e es r rs s quiet = ground (arith, quiet)

  deliver_ready :
      (e d : Entry H) (es : List (Entry H)) (r : Revents) (rs : List Revents) (s : Selector H W)
      → is_quiet r ≡ false
      → find_fd e.fd s.descriptors ≡ some d
      → let gone = record s { descriptors = erase_fd e.fd s.descriptors } in
        let served = deliver os es rs (os.call d.handler (r.err || r.hup || r.nval) gone) in
        deliver os (e ∷ es) (r ∷ rs) s ≡ (served.0, suc served.1)
  unfolding deliver
  deliver_ready e d es r rs s ready found = ground (arith, ready, found)

  apart_more :
      (e : Entry H) (kept es : List (Entry H))
      → All (λ x. x.fd ≢ e.fd) es
      → All (λ x. All (λ y. y.fd ≢ x.fd) kept) es
      → All (λ x. All (λ y. y.fd ≢ x.fd) (kept ++ e ∷ [])) es
  apart_more e kept [] d h = tt
  apart_more e kept (x ∷ es) (d, ds) (h, hs) =
      (All-snoc (λ y. y.fd ≢ x.fd) kept e h (λ same. d (sym same)), apart_more e kept es ds hs)

  -- The state of a reactor with its table and its world replaced.
  abbrev pub served : Selector H W → List (Entry H) → W → Selector H W
  served s es w = record s { descriptors = es; world = w }

  deliver_behind :
      (act : H → Bool → W → W) (kept es : List (Entry H)) (rs : List Revents) (s : Selector H W)
      → IsPassive act
      → length rs ≡ length es
      → Distinct es
      → All (λ e. All (λ x. x.fd ≢ e.fd) kept) es
      → s.descriptors ≡ kept ++ es
      → deliver os es rs s
        ≡ (served s (kept ++ unready es rs) (call_ready act es rs s.world), count_ready rs)
  deliver_behind act kept [] [] s passive long distinct apart at =
      deliver_done [] s ∙ ap (λ xs. (served s xs s.world, 0)) at
  deliver_behind act kept [] (r ∷ rs) s passive long distinct apart at =
      absurd (omega (arith, long))
  deliver_behind act kept (e ∷ es) [] s passive long distinct apart at =
      absurd (omega (arith, long))
  deliver_behind act kept (e ∷ es) (r ∷ rs) s passive long (new, distinct) (apart, aparts) at =
      elim (Bool-cases (is_quiet r)) [
        | inl quiet ↦
            deliver_quiet e es r rs s quiet
            ∙ deliver_behind act (kept ++ e ∷ []) es rs s passive (omega (arith, long)) distinct
                (apart_more e kept es new aparts) (at ∙ sym (append_assoc kept (e ∷ []) es))
            ∙ ground (arith, quiet, append_assoc kept (e ∷ []) (unready es rs))
        | inr ready ↦
            let (found, erased) = find_behind e kept es apart in
            let there : find_fd e.fd s.descriptors ≡ some e = ap (find_fd e.fd) at ∙ found in
            let gone = record s { descriptors = erase_fd e.fd s.descriptors } in
            let error = r.err || r.hup || r.nval in
            let called : Selector H W = record gone { world = act e.handler error s.world } in
            let rest =
              deliver_behind act kept es rs called passive (omega (arith, long)) distinct aparts
                (ap (erase_fd e.fd) at ∙ erased) in
            deliver_ready e e es r rs s ready there
            ∙ ap (λ c. let done = deliver os es rs c in (done.0, suc done.1))
                (passive e.handler error gone)
            ∙ ap (λ (d : Selector H W × ℕ). (d.0, suc d.1)) rest
            ∙ ground (arith, ready)
      ]

  -- A pass serves what is ready: when `poll` reports something for a table without two entries for
  -- one descriptor, and handlers leave the reactor alone, then, if the wake pipe has nothing, the pass
  -- calls the handlers of the entries that are ready, each once, in the order of the table, with the
  -- error flag of its own descriptor, returns their number, and exactly the other entries stay, in
  -- their order; and if the wake pipe has a byte, the pass takes it and calls nothing.
  pub run_one_serves :
      (act : H → Bool → W → W) (timeout result errno : ℕ) (woken : Revents) (rs : List Revents)
      (s : Selector H W) (w : W)
      → os.poll (poll_fds os s) timeout s.world ≡ (w, some (suc result, woken ∷ rs), errno)
      → length rs ≡ length s.descriptors
      → Distinct s.descriptors
      → IsPassive act
      → (woken.input ≡ false
          → do_run_one os timeout s
            ≡ returned (
              served s (unready s.descriptors rs) (call_ready act s.descriptors rs w),
              count_ready rs,
            ))
        × (woken.input ≡ true
            → do_run_one os timeout s ≡ returned (record s { world = os.read_byte w }, 0))
  unfolding do_run_one
  run_one_serves act timeout result errno woken rs s w polled long distinct passive =
      let asked = record s { world = w } in
      let all =
        deliver_behind act [] s.descriptors rs asked passive long distinct
          (All-intro (λ e. tt) s.descriptors) refl in
      (λ still. ground (arith, polled, still, all), λ woke. ground (arith, polled, woke))
