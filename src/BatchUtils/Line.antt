-- ===== src/BatchUtils/Line.antt =====
-- What has not been received from the channel or sent to it: the items that are left, and the stops
-- behind them, one for each worker that has not returned.
use mathlib.Core.List.{append_assoc}
use client_sdk_go.Base.{
  ℕ, zero, suc, ◌+◌, ◌≡◌, refl, sym, ap, ◌∙◌, ◌⊎◌, inl, inr, true, false, List, [], ◌∷◌, ◌++◌,
  length, replicate, length-append, subst, All, arith,
}
use client_sdk_go.BatchUtils.{
  Messages, is_nil_key, Pool, start, Step, send, take, leave, finish, Run, begin, next,
}

-- What has not been received yet: the items left, and then the stops.
pub record Line (m : Messages) {Resp : Type 0} (items : List m.Message) (workers : ℕ)
    (s : Pool m Resp) : Type 0 where
  pub left : List m.Message
  pub stops : ℕ
  pub lined_up : s.queue ++ s.to_send ≡ left ++ replicate stops m.stop
  pub no_nil : All (λ x. is_nil_key (m.key x) ≡ false) left
  pub for_each : stops ≡ s.waiting + length s.busy
  pub none_left : (left ≡ []) ⊎ (stops ≡ workers)
  pub conserved : length left + length s.busy + length s.results ≡ length items

module _ (m : Messages) (is_stop : is_nil_key (m.key m.stop) ≡ true) where
  -- A first item that is no stop is the first one left.
  next_item :
      (x : m.Message) (xs left : List m.Message) (stops : ℕ)
      → is_nil_key (m.key x) ≡ false
      → x ∷ xs ≡ left ++ replicate stops m.stop
      → (left' : List m.Message) × (left ≡ x ∷ left') × (xs ≡ left' ++ replicate stops m.stop)
  next_item x xs [] zero h q = absurd (cc)
  next_item x xs [] (suc n) h q = absurd (cc)
  next_item x xs (y ∷ left) stops h q = (left, cc, cc)

  next_stop :
      (x : m.Message) (xs left : List m.Message) (stops : ℕ)
      → is_nil_key (m.key x) ≡ true
      → All (λ y. is_nil_key (m.key y) ≡ false) left
      → x ∷ xs ≡ left ++ replicate stops m.stop
      → (n : ℕ) × (left ≡ []) × (stops ≡ suc n) × (xs ≡ replicate n m.stop)
  next_stop x xs [] zero h a q = absurd cc
  next_stop x xs [] (suc n) h a q = (n, refl, refl, cc)
  next_stop x xs (y ∷ left) stops h a q = absurd cc

  module _ {Resp : Type 0} {items : List m.Message} {workers : ℕ} where
    Line-send :
        {s : Pool m Resp} (x : m.Message) (rest : List m.Message)
        → s.to_send ≡ x ∷ rest
        → Line m items workers s
        → Line m items workers (record s { to_send = rest; queue = s.queue ++ (x ∷ []) })
    Line-send {s} x rest e l = record {
      left = l.left;
      stops = l.stops;
      lined_up = append_assoc s.queue (x ∷ []) rest ∙ ap (λ xs. s.queue ++ xs) (sym e) ∙ l.lined_up;
      no_nil = l.no_nil;
      for_each = l.for_each;
      none_left = l.none_left;
      conserved = l.conserved;
    }

    Line-take :
        {s : Pool m Resp} (x : m.Message) (rest : List m.Message) (others : ℕ)
        → s.queue ≡ x ∷ rest
        → s.waiting ≡ suc others
        → is_nil_key (m.key x) ≡ false
        → Line m items workers s
        → Line m items workers (record s { queue = rest; waiting = others; busy = x ∷ s.busy })
    Line-take {s} x rest others e w h l =
        let (left', same, tail) =
          next_item x (rest ++ s.to_send) l.left l.stops h
            (ap (λ xs. xs ++ s.to_send) (sym e) ∙ l.lined_up) in
        record {
          left = left';
          stops = l.stops;
          lined_up = tail;
          no_nil = (subst (All (λ y. is_nil_key (m.key y) ≡ false)) same l.no_nil).1;
          for_each = omega (arith, l.for_each, w);
          none_left = elim l.none_left [ inl none ↦ absurd cc | inr all ↦ inr all ];
          conserved = omega (arith, l.conserved, ap length same);
        }

    Line-leave :
        {s : Pool m Resp} (x : m.Message) (rest : List m.Message) (others : ℕ)
        → s.queue ≡ x ∷ rest
        → s.waiting ≡ suc others
        → is_nil_key (m.key x) ≡ true
        → Line m items workers s
        → Line m items workers (record s { queue = rest; waiting = others })
    Line-leave {s} x rest others e w h l =
        let (n, none, more, tail) =
          next_stop x (rest ++ s.to_send) l.left l.stops h l.no_nil
            (ap (λ xs. xs ++ s.to_send) (sym e) ∙ l.lined_up) in
        record {
          left = [];
          stops = n;
          lined_up = tail;
          no_nil = tt;
          for_each = omega (arith, l.for_each, w, more);
          none_left = inl refl;
          conserved = omega (arith, l.conserved, ap length none);
        }

    Line-finish :
        {s : Pool m Resp} (before after : List m.Message) (x : m.Message) (answer : Resp)
        → s.busy ≡ before ++ (x ∷ after)
        → Line m items workers s
        → Line m items workers (record s {
          busy = before ++ after;
          waiting = s.waiting + 1;
          results = s.results ++ ((m.key x, answer) ∷ []);
        })
    Line-finish {s} before after x answer e l = record {
      left = l.left;
      stops = l.stops;
      lined_up = l.lined_up;
      no_nil = l.no_nil;
      for_each = omega (arith, l.for_each, fewer);
      none_left = l.none_left;
      conserved =
          omega (arith, l.conserved, fewer, length-append s.results ((m.key x, answer) ∷ []));
    }
      where
        fewer : length s.busy ≡ suc (length (before ++ after))
        fewer =
            omega (arith, ap length e, length-append before (x ∷ after), length-append before after)

    Step-Line :
        {capacity result_capacity : ℕ} {s t : Pool m Resp}
        → Step m Resp capacity result_capacity s t
        → Line m items workers s
        → Line m items workers t
    Step-Line (send x rest e _ q) l = rw q (Line-send x rest e l)
    Step-Line (take x rest others e w h q) l = rw q (Line-take x rest others e w h l)
    Step-Line (leave x rest others e w h q) l = rw q (Line-leave x rest others e w h l)
    Step-Line (finish before after x answer e _ q) l = rw q (Line-finish before after x answer e l)

    pub Run-Line :
        All (λ x. is_nil_key (m.key x) ≡ false) items
        → {capacity k : ℕ} {s : Pool m Resp} → Run m Resp items workers capacity k s
        → Line m items workers s
    unfolding start
    Run-Line a begin = record {
      left = items;
      stops = workers;
      lined_up = refl;
      no_nil = a;
      for_each = omega arith;
      none_left = inr refl;
      conserved = omega arith;
    }
    Run-Line a (next r step) = Step-Line step (Run-Line a r)
