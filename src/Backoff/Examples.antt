-- ===== src/Backoff/Examples.antt =====
-- Retrying at concrete inputs.
use sssonector.Prelude.{
  Float64, ap, arith, false, if◌then◌else◌, leb, ltb, refl, some, true, ℕ, ◌*◌, ◌+◌, ◌/◌, ◌^◌, ◌≡◌,
  ◌≤◌,
}
use sssonector.Backoff.{
  Backoff, BackoffConfig, Done, FloatMath, Round, calculate_delay, delay_by, exponential, failed,
  fixed, geometric, get_next_delay, linear, new_exponential_backoff, retry, retry_from,
}
use sssonector.Backoff.Retry.{retry-terminates}
use sssonector.Backoff.Delay.{IsExact, get_next_delay-grows, smaller}

abbrev failing : ℕ → Round ℕ
failing i = record {
  is_cancelled = false;
  is_cancelled_waiting = false;
  answer = some i;
  now = i;
  later = i;
}

-- With three retries allowed, a function that always fails is called three times, and the error of
-- the last call comes back.
three_calls :
    retry 3 0 failing 9 new_exponential_backoff
    ≡ some (record {
      outcome = failed 2;
      calls = 3;
      backoff = record {
        retry_count = 4;
        consecutive_successes = 0;
        total_retries = 6;
        last_retry = 2;
        last_success = 0;
      };
    })
unfolding retry retry_from new_exponential_backoff
three_calls = refl

retry-terminates_example :
    (d : Done ℕ) × (retry 3 0 failing 5 new_exponential_backoff ≡ some d)
    × (1 ≤ d.calls)
    × (d.calls ≤ 3)
unfolding new_exponential_backoff
retry-terminates_example =
    retry-terminates 3 0 failing 5 new_exponential_backoff (omega arith) (omega arith) (omega arith)

-- Floats of whole numbers, which lose the last binary digit above 2^53.
abbrev cut : ℕ → ℕ
cut n = if ltb 9007199254740992 n then n / 2 * 2 else n

abbrev whole : Float64
whole = record { Float = ℕ; of_nat = cut; div = λ a b. a / b; lt = ltb; le = leb }

abbrev powers : FloatMath whole
powers = record {
  mul = λ a b. cut (a * b);
  pow = λ a n. cut (a ^ n);
  of_duration = cut;
  to_duration = λ x. x;
}

cut_small : (n : ℕ) → n ≤ 9007199254740992 → cut n ≡ n
cut_small n h = ground (arith, h)

powers-IsExact : IsExact powers
powers-IsExact = record {
  conversion = λ n h. ground (arith, h);
  product =
      λ a b h g l. ap cut {x = cut a * cut b} {y = a * b} (rw (cut_small a h, cut_small b g) refl);
}

abbrev doubling : BackoffConfig whole
doubling = record {
  strategy = exponential;
  base_delay = 100;
  max_delay = 500;
  max_retries = 5;
  jitter_factor = 1;
  reset_after = 0;
  enable_jitter = false;
  multiplier = 2;
}

abbrev twice_failed : Backoff
twice_failed = record {
  retry_count = 2;
  consecutive_successes = 0;
  total_retries = 2;
  last_retry = 0;
  last_success = 0;
}

doubled : get_next_delay powers doubling true 1 twice_failed ≡ 400
unfolding get_next_delay calculate_delay delay_by
doubled = refl

-- A jitter above the delay makes the difference negative, and its sign is dropped.
taken_off :
    get_next_delay powers
      (record doubling { enable_jitter = true; jitter_factor = 2 })
      false
      1
      twice_failed
    ≡ 400
unfolding get_next_delay calculate_delay delay_by
taken_off = refl

get_next_delay-grows_example :
    (get_next_delay powers (record doubling { strategy = geometric }) true 1 twice_failed
      ≡ smaller 500 (100 * 2 ^ 2))
    × (get_next_delay powers (record doubling { strategy = linear }) true 1 twice_failed
        ≡ smaller 500 (2 * 100 + 100))
    × (get_next_delay powers (record doubling { strategy = fixed }) true 1 twice_failed ≡ 100)
get_next_delay-grows_example =
    get_next_delay-grows powers doubling powers-IsExact 2 true 1 twice_failed refl (omega arith)
      refl (omega arith) (omega arith) (omega arith) (omega arith) (omega arith)
