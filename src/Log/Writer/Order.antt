-- ===== src/Log/Writer/Order.antt =====
-- Every request gets one answer, in the order of arrival, with consecutive numbers.
use alog.Common.{
  zero, ℕ, suc, ◌+◌, ◌-◌, ◌%◌, ◌^◌, ◌≡◌, ◌<◌, ◌≤◌, refl, sym, ap, ◌∙◌, arith, List, [], ◌∷◌, ◌++◌,
  append-nil, append_assoc, some, ◌&&◌, if_both, length, get_elem?,
}
use alog.Errors.{Err}
use alog.Exec.{Result, ok, err, Exec}
use alog.Bytes.{Bytes}
use alog.Log.Timer
use alog.Log.Writer.{
  accept, payloads_of, Request, Response, Options, Writer, answers, fail_all, number_all, under,
  write_batch, flush, receive, stop, Runs, halt, receives, elapses, expires, stops, expire,
}

abbrev pub waiting : List Request → List ℕ
waiting [] = []
waiting (r ∷ rs) = r.caller ∷ waiting rs

abbrev pub answered : List Response → List ℕ
answered [] = []
answered (r ∷ rs) = r.caller ∷ answered rs

answered-append : (xs ys : List Response) → answered (xs ++ ys) ≡ answered xs ++ answered ys
answered-append [] ys = refl
answered-append (x ∷ xs) ys = ap (λ t. x.caller ∷ t) (answered-append xs ys)

waiting-append : (xs ys : List Request) → waiting (xs ++ ys) ≡ waiting xs ++ waiting ys
waiting-append [] ys = refl
waiting-append (x ∷ xs) ys = ap (λ t. x.caller ∷ t) (waiting-append xs ys)

answered-fail_all : (e : Err) (rs : List Request) → answered (fail_all e rs) ≡ waiting rs
answered-fail_all e [] = refl
answered-fail_all e (r ∷ rs) = ap (λ t. r.caller ∷ t) (answered-fail_all e rs)

answered-number_all : (rs : List Request) (seq : ℕ) → answered (number_all seq rs) ≡ waiting rs
answered-number_all [] seq = refl
answered-number_all (r ∷ rs) seq =
    ap (λ t. r.caller ∷ t) (answered-number_all rs ((seq + 1) % 2 ^ 64))

answered-answers : (rs : List Request) (x : Result ℕ) → answered (answers rs x) ≡ waiting rs
answered-answers rs (ok n) = answered-number_all rs _
answered-answers rs (err e) = answered-fail_all e rs

abbrev response : ℕ → ℕ → Response
response caller seq = record { caller = caller; result = ok seq }

number_all-at :
    (rs : List Request) (seq i : ℕ) (r : Request)
    → seq + length rs ≤ 2 ^ 64
    → get_elem? rs i ≡ some r
    → get_elem? (number_all seq rs) i ≡ some (record { caller = r.caller; result = ok (seq + i) })
number_all-at [] seq i r h e = absurd cc
number_all-at (q ∷ rs) seq zero r h e =
    let same : q ≡ r = cc in
    let here : seq ≡ seq + 0 = omega arith in
    ap (λ (x : Request). some (response x.caller seq)) same
    ∙ ap (λ n. some (response r.caller n)) here
number_all-at (q ∷ []) seq (suc i) r h e = absurd cc
number_all-at (q ∷ p ∷ rs) seq (suc i) r h e =
    let next : (seq + 1) % 2 ^ 64 ≡ seq + 1 = omega (arith, h) in
    let there : seq + 1 + i ≡ seq + suc i = omega arith in
    ap (λ n. get_elem? (number_all n (p ∷ rs)) i) next
    ∙ number_all-at (p ∷ rs) (seq + 1) i r (omega (arith, h)) e
    ∙ ap (λ n. some (response r.caller n)) there

nonempty : (rs : List Request) (i : ℕ) (r : Request) → get_elem? rs i ≡ some r → 0 < length rs
nonempty [] i r e = absurd cc
nonempty (q ∷ rs) i r e = omega arith

-- If a batch is appended with the last sequence number `last`, the request at place `i` of the batch
-- gets the number that its payload has: `last` is that of the last one, and they go up by one.
pub answers-at :
    (rs : List Request) (last i : ℕ) (r : Request)
    → length rs ≤ last + 1
    → last < 2 ^ 64
    → get_elem? rs i ≡ some r
    → get_elem? (answers rs (ok last)) i
      ≡ some (record { caller = r.caller; result = ok (last + 1 - length rs + i) })
answers-at rs last i r few bound e =
    let first : (last + 2 ^ 64 + 1 - length rs % 2 ^ 64) % 2 ^ 64 ≡ last + 1 - length rs =
      omega (arith, few, bound, nonempty rs i r e) in
    ap (λ n. get_elem? (number_all n rs) i) first
    ∙ number_all-at rs (last + 1 - length rs) i r (omega (arith, few, bound)) e

module _ {L : Type 0} (append : List Bytes → Exec L ℕ) (opts : Options) where
  -- The callers in the order in which they are, or are going to be, answered
  abbrev pub queue : Writer L → List ℕ
  queue w = answered w.responses ++ waiting w.batch

  queue-flush : (w : Writer L) → queue (flush append opts w) ≡ queue w
  unfolding flush write_batch
  queue-flush w = go w.batch refl
    where
      go : (b : List Request) → w.batch ≡ b → queue (flush append opts w) ≡ queue w
      go [] e = rw e refl
      go (r ∷ rs) e = rw e (
          append-nil _
          ∙ answered-append w.responses (answers (r ∷ rs) (append (payloads_of (r ∷ rs)) w.log).0)
          ∙ ap (λ t. answered w.responses ++ t)
              (answered-answers (r ∷ rs) (append (payloads_of (r ∷ rs)) w.log).0))

  queue-receive :
      (req : Request) (w : Writer L)
      → queue (receive append opts req w) ≡ queue w ++ req.caller ∷ []
  unfolding receive
  queue-receive req w =
      let joined : queue (accept req w) ≡ queue w ++ req.caller ∷ [] =
        ap (λ t. answered w.responses ++ t) (waiting-append w.batch (req ∷ []))
        ∙ sym (append_assoc (answered w.responses) (waiting w.batch) (req.caller ∷ [])) in
      let u = accept req w in
      if_both (λ x. queue x ≡ queue w ++ req.caller ∷ [])
        (under u.size opts.max_size && under (length u.batch) opts.max_length) (λ _. joined)
        (λ _. queue-flush u ∙ joined)

  -- Whatever the target answers, and in whatever order requests, timer and the end come, each caller
  -- is answered once or waits in the batch, in the order in which the requests were received.
  pub queue-Runs :
      (w v : Writer L) (cs : List ℕ) → Runs append opts w cs v → queue v ≡ queue w ++ cs
  unfolding stop expire
  queue-Runs w v cs (halt x) = sym (append-nil _)
  queue-Runs w v (_ ∷ ds) (receives req run h) =
      queue-Runs _ v ds h
      ∙ ap (λ t. t ++ ds) (queue-receive req w)
      ∙ append_assoc (queue w) (req.caller ∷ []) ds
  queue-Runs w v cs (elapses active h) = queue-Runs _ v cs h
  queue-Runs w v cs (expires run fired h) =
      queue-Runs _ v cs h
      ∙ ap (λ t. t ++ cs) (queue-flush (record w { timer = Timer.receive w.timer }))
  queue-Runs w v cs (stops run h) = queue-Runs _ v cs h ∙ ap (λ t. t ++ cs) (queue-flush w)
