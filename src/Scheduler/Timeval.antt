-- ===== src/Scheduler/Timeval.antt =====
-- Timeval, DelayInterval and DelayEventTime of src/detail/scheduler/delayqueue_in.h and .cpp.
use huicpp.Base.{
  ℕ, suc, ◌+◌, ◌*◌, ◌-◌, ◌/◌, ◌%◌, ◌^◌, ◌<◌, ◌≤◌, ◌≡◌, arith, Bool, not, if◌then◌else◌, ◌&&◌, ◌||◌,
  ◌==◌, ltb, leb,
}

-- Both fields are `long`; no operation makes one negative that was not.
pub record Timeval : Type 0 where
  pub seconds : ℕ
  pub useconds : ℕ

abbrev pub million : ℕ
million = 1000000

abbrev pub delay_zero : Timeval
delay_zero = record { seconds = 0; useconds = 0 }

-- LONG_MAX seconds.
abbrev pub eternity : Timeval
eternity = record { seconds = 9223372036854775807; useconds = 999999 }

unfoldable pub geq : Timeval → Timeval → Bool
geq s t = ltb t.seconds s.seconds || ((s.seconds == t.seconds) && leb t.useconds s.useconds)

unfoldable pub lt : Timeval → Timeval → Bool
unfolding geq
lt s t = not (geq s t)

unfoldable pub eq : Timeval → Timeval → Bool
unfolding geq
eq s t = geq s t && geq t s

unfoldable pub add : Timeval → Timeval → Timeval
add s t =
    let u = s.useconds + t.useconds in
    if leb million u
    then record { seconds = suc (s.seconds + t.seconds); useconds = u - million }
    else record { seconds = s.seconds + t.seconds; useconds = u }

-- The operator -=. The seconds are compared instead of the sign of the difference.
unfoldable pub sub : Timeval → Timeval → Timeval
sub s t =
    let borrow = if ltb s.useconds t.useconds then 1 else 0 in
    if ltb s.seconds (t.seconds + borrow) then delay_zero else record {
      seconds = s.seconds - (t.seconds + borrow);
      useconds = s.useconds + borrow * million - t.useconds;
    }

-- `(int)secs < 0` for a difference of seconds modulo 2 ^ 64.
unfoldable pub int_negative : ℕ → Bool
int_negative secs = leb (2 ^ 31) (secs % 2 ^ 32)

-- The operator -, which tests the low 32 bits of the seconds.
unfoldable pub diff : Timeval → Timeval → Timeval
unfolding int_negative
diff s t =
    let borrow = if ltb s.useconds t.useconds then 1 else 0 in
    let secs = (s.seconds + 2 ^ 64 - t.seconds - borrow) % 2 ^ 64 in
    if int_negative secs
    then delay_zero
    else record { seconds = secs; useconds = s.useconds + borrow * million - t.useconds }

-- The operator *, for a factor that is not negative.
unfoldable pub scale : ℕ → Timeval → Timeval
scale k t =
    let u = k * t.useconds in
    record { seconds = k * t.seconds + u / million; useconds = u - u / million * million }

-- The length in microseconds.
unfoldable pub micros : Timeval → ℕ
micros t = t.seconds * million + t.useconds

abbrev pub IsNormal : Timeval → Type 0
IsNormal t = t.useconds < million

pub geq-micros : (s t : Timeval) → IsNormal s → IsNormal t → geq s t ≡ leb (micros t) (micros s)
unfolding geq micros
geq-micros s t hs ht = grind arith

pub eq-micros : (s t : Timeval) → IsNormal s → IsNormal t → eq s t ≡ (micros s == micros t)
unfolding eq geq micros
eq-micros s t hs ht = grind arith

pub micros-add : (s t : Timeval) → micros (add s t) ≡ micros s + micros t
unfolding add micros
micros-add s t = grind arith

pub add-IsNormal : (s t : Timeval) → IsNormal s → IsNormal t → IsNormal (add s t)
unfolding add
add-IsNormal s t hs ht = grind arith

pub micros-sub : (s t : Timeval) → IsNormal s → IsNormal t → micros (sub s t) ≡ micros s - micros t
unfolding sub micros
micros-sub s t hs ht = grind arith

pub sub-IsNormal : (s t : Timeval) → IsNormal s → IsNormal t → IsNormal (sub s t)
unfolding sub
sub-IsNormal s t hs ht = grind arith

-- The difference of two times, the later one less than 2 ^ 31 seconds after the other.
pub micros-diff :
    (s t : Timeval)
    → IsNormal s
    → IsNormal t
    → s.seconds < t.seconds + 2 ^ 31
    → s.seconds < 2 ^ 63
    → t.seconds < 2 ^ 63
    → micros t ≤ micros s
    → micros (diff s t) ≡ micros s - micros t
unfolding diff int_negative micros
micros-diff s t hs ht h h1 h2 hm = grind arith

pub diff-IsNormal : (s t : Timeval) → IsNormal s → IsNormal t → IsNormal (diff s t)
unfolding diff
diff-IsNormal s t hs ht = grind arith

-- Between 2 ^ 31 and 2 ^ 32 seconds, the difference of two times is taken for negative.
pub diff_truncated :
    (s t : Timeval)
    → t.seconds + 2 ^ 31 < s.seconds
    → s.seconds < t.seconds + 2 ^ 32
    → diff s t ≡ delay_zero
unfolding diff int_negative
diff_truncated s t h1 h2 = grind arith
