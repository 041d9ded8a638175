-- ===== src/Scheduler/DelayQueue/Loops.antt =====
-- The loops over the chain of a delay queue, against the schedule that it stands for.
use huicpp.Base.{
  ℕ, ◌+◌, ◌-◌, ◌≤◌, ◌<◌, ◌≡◌, refl, ap, ◌∙◌, arith, List, [], ◌∷◌, ◌==◌, leb, true, false,
  Bool-cases, inl, inr, Option, some,
}
use huicpp.Scheduler.Timeval.{
  Timeval, geq, sub, micros, IsNormal, geq-micros, micros-add, add-IsNormal, micros-sub,
  sub-IsNormal,
}
use huicpp.Scheduler.DelayQueue.{Entry, Chain, link, advance, place, give, unlink}
use huicpp.Scheduler.DelayQueue.Schedule.{
  Alarm, later, earlier, schedule_at, without, schedule, later-later, later-zero, earlier-later_le,
  earlier-later_ge, schedule_at-later, without-later,
}

-- All the intervals are in normal form.
unfoldable pub IsChain : List Entry → Timeval → Type 0
IsChain [] rest = IsNormal rest
IsChain (e ∷ es) rest = IsNormal e.delta × IsChain es rest

-- The microseconds to the end of the queue.
unfoldable pub total : List Entry → Timeval → ℕ
total [] rest = micros rest
total (e ∷ es) rest = micros e.delta + total es rest

-- `c` is in normal form, stands for the schedule `s`, and ends after `n` microseconds.
pub record Holds (c : Chain) (s : List Alarm) (n : ℕ) : Type 0 where
  pub chain : IsChain c.0 c.1
  pub alarms : schedule c.0 ≡ s
  pub sum : total c.0 c.1 ≡ n

-- The loop ends, and with such a chain.
pub record Gives (o : Option Chain) (s : List Alarm) (n : ℕ) : Type 0 where
  pub chain : Chain
  pub result : o ≡ some chain
  pub holds : Holds chain s n

geq→le : (s t : Timeval) → IsNormal s → IsNormal t → geq s t ≡ true → micros t ≤ micros s
geq→le s t hs ht e = let g = geq-micros s t hs ht in grind arith

geq→lt : (s t : Timeval) → IsNormal s → IsNormal t → geq s t ≡ false → micros s < micros t
geq→lt s t hs ht e = let g = geq-micros s t hs ht in grind arith

lt→geq : (s t : Timeval) → IsNormal s → IsNormal t → micros s < micros t → geq s t ≡ false
lt→geq s t hs ht e = let g = geq-micros s t hs ht in grind arith

module _ {o : Option Chain} {s : List Alarm} {n : ℕ} where
  link-Gives :
      (e : Entry)
      → IsNormal e.delta
      → Gives o s n
      → Gives (link e o) ((e.token, micros e.delta) ∷ later (micros e.delta) s) (micros e.delta + n)
  unfolding link IsChain total schedule
  link-Gives e h g = record {
    chain = (e ∷ g.chain.0, g.chain.1);
    result = rw g.result refl;
    holds = record {
      chain = (h, g.holds.chain);
      alarms = rw g.holds.alarms refl;
      sum = rw g.holds.sum refl;
    };
  }

  Gives-cast : {s' : List Alarm} {n' : ℕ} → s ≡ s' → n ≡ n' → Gives o s n → Gives o s' n'
  Gives-cast hs hn g = record {
    chain = g.chain;
    result = g.result;
    holds = record { chain = g.holds.chain; alarms = g.holds.alarms ∙ hs; sum = g.holds.sum ∙ hn };
  }

module _ (t : Timeval) (e : Entry) (es : List Entry) where
  earlier-schedule_le :
      micros e.delta ≤ micros t
      → (e.token, 0) ∷ later 0 (earlier (micros t - micros e.delta) (schedule es))
        ≡ earlier (micros t) (schedule (e ∷ es))
  unfolding schedule earlier
  earlier-schedule_le h =
      rw (later-zero, earlier-later_le (micros t) (micros e.delta) (schedule es) h)
        (ap (λ u. (e.token, u) ∷ earlier (micros t - micros e.delta) (schedule es)) (omega arith))

pub advance-Gives :
    (t : Timeval) (es : List Entry) (rest : Timeval)
    → IsNormal t
    → IsChain es rest
    → micros t < total es rest
    → Gives (advance t es rest) (earlier (micros t) (schedule es)) (total es rest - micros t)
unfolding advance IsChain total earlier schedule micros
advance-Gives t [] rest ht hr h = record {
  chain = ([], sub rest t);
  result = rw (lt→geq t rest ht hr h) refl;
  holds = record {
    chain = sub-IsNormal rest t hr ht;
    alarms = refl;
    sum = micros-sub rest t hr ht;
  };
}
advance-Gives t (e ∷ es) rest ht (he, hr) h = elim (Bool-cases (geq t e.delta)) [
  | inl b ↦
      (let le = geq→le t e.delta ht he b in
        let m = micros-sub t e.delta ht he in
        let ih =
          advance-Gives (sub t e.delta) es rest (sub-IsNormal t e.delta ht he) hr
            (rw m (omega arith)) in
        rw b (
          Gives-cast (rw m (earlier-schedule_le t e es le)) (rw m (omega arith)) (
            link-Gives (record e { delta = record { seconds = 0; useconds = 0 } }) (omega arith)
              ih)))
  | inr b ↦
      (let l = geq→lt t e.delta ht he b in
        let m = micros-sub e.delta t he ht in
        record {
          chain = (record e { delta = sub e.delta t } ∷ es, rest);
          result = rw b refl;
          holds = record {
            chain = (sub-IsNormal e.delta t he ht, hr);
            alarms =
                rw (m, earlier-later_ge (micros t) (micros e.delta) (schedule es) (omega arith))
                  refl;
            sum = rw m (omega arith);
          };
        })
]

pub place-Gives :
    (n : ℕ) (d : Timeval) (es : List Entry) (rest : Timeval)
    → IsNormal d
    → IsChain es rest
    → micros d < total es rest
    → Gives (place n d es rest) (schedule_at n (micros d) (schedule es)) (total es rest)
unfolding place IsChain total schedule_at schedule later
place-Gives n d [] rest hd hr h =
    let m = micros-sub rest d hr hd in
    record {
      chain = (record { token = n; delta = d } ∷ [], sub rest d);
      result = rw (lt→geq d rest hd hr h) refl;
      holds = record {
        chain = (hd, sub-IsNormal rest d hr hd);
        alarms = refl;
        sum = rw m (omega arith);
      };
    }
place-Gives n d (e ∷ es) rest hd (he, hr) h = elim (Bool-cases (geq d e.delta)) [
  | inl b ↦
      (let le = geq→le d e.delta hd he b in
        let m = micros-sub d e.delta hd he in
        let ih =
          place-Gives n (sub d e.delta) es rest (sub-IsNormal d e.delta hd he) hr
            (rw m (omega arith)) in
        let c : leb (micros e.delta) (micros d) ≡ true = grind arith in
        rw b (
          Gives-cast
            (rw (m, c, schedule_at-later n (micros d) (micros e.delta) (schedule es) le) refl) refl
            (link-Gives e he ih)))
  | inr b ↦
      (let l = geq→lt d e.delta hd he b in
        let m = micros-sub e.delta d he hd in
        let c : leb (micros e.delta) (micros d) ≡ false = grind arith in
        let y : micros (sub e.delta d) + micros d ≡ micros e.delta = omega (arith, m) in
        record {
          chain = (record { token = n; delta = d } ∷ record e { delta = sub e.delta d } ∷ es, rest);
          result = rw b refl;
          holds = record {
            chain = (hd, (sub-IsNormal e.delta d he hd, hr));
            alarms = rw (c, later-later (micros d) (micros (sub e.delta d)) (schedule es), y) refl;
            sum = rw m (omega arith);
          };
        })
]

pub give-Holds :
    (d : Timeval) (es : List Entry) (rest : Timeval)
    → IsNormal d
    → IsChain es rest
    → Holds (give d es rest) (later (micros d) (schedule es)) (micros d + total es rest)
unfolding give IsChain total schedule later
give-Holds d [] rest hd hr = record {
  chain = add-IsNormal rest d hr hd;
  alarms = refl;
  sum = rw (micros-add rest d) (omega arith);
}
give-Holds d (e ∷ es) rest hd (he, hr) =
    let m = micros-add e.delta d in
    record {
      chain = (add-IsNormal e.delta d he hd, hr);
      alarms = rw (m, later-later (micros d) (micros e.delta) (schedule es)) refl;
      sum = rw m (omega arith);
    }

pub unlink-Holds :
    (n : ℕ) (es : List Entry) (rest : Timeval)
    → IsChain es rest
    → Holds (unlink n es rest) (without n (schedule es)) (total es rest)
unfolding unlink IsChain total schedule without
unlink-Holds n [] rest hr = record { chain = hr; alarms = refl; sum = refl }
unlink-Holds n (e ∷ es) rest (he, hr) =
    let ih = unlink-Holds n es rest hr in
    elim (Bool-cases (e.token == n)) [
      | inl b ↦ rw b (give-Holds e.delta es rest he hr)
      | inr b ↦
          rw (b, without-later n (micros e.delta) (schedule es))
            (record { chain = (he, ih.chain); alarms = rw ih.alarms refl; sum = rw ih.sum refl })
    ]
