-- ===== src/Server/Countdown/Start.antt =====
-- A new server of src/net/Server.h and its first 99 ticks, in which nothing else happens.
use netyo.Prelude.{
  ◌≡◌, List, [], ◌∷◌, ◌++◌, replicate, get_or-replicate, arith, some, none, refl, ◌>>=◌, false, ap,
  ◌∙◌, Option-cases, inl, inr,
}
use netyo.Ring.{Ring}
use netyo.Wheel.{Bucket, TimingWheel, new_wheel}
use netyo.Wheel.Ticking.{IsBlank, IsFull}
use netyo.Server.Timeouts.{Timeouts}
use netyo.Server.Renewal.{IsWatched}
use netyo.Server.Tally.{count, count_for}
use netyo.Server.Countdown.{Event, tick, serve, serve_all, Countdown, Follows}

-- The constructor of the server gives the wheel 10 minutes, in ticks of a second.
abbrev pub new_timeouts : Timeouts
new_timeouts = record {
  connections = λ k. none;
  num_connections = 0;
  entry_conn = λ e. 0;
  num_entries = 0;
  timing_wheel = new_wheel 600 1;
  force_closed = [];
}

abbrev pub no_countdown : Countdown
no_countdown = record { known = λ k. false; left = λ k. 0; closed = λ k. 0; made = 0 }

abbrev pub first_ticks : List Event
first_ticks = replicate 99 tick

-- The first wheel has gone round, and neither holds anything.
abbrev round_wheel : Ring Bucket
round_wheel = record { vec = replicate 100 []; lo = 0; hi = 99 }

abbrev fresh_wheel : Ring Bucket
fresh_wheel = record { vec = replicate 100 []; lo = 0; hi = 0 }

abbrev pub ready_timeouts : Timeouts
ready_timeouts = record new_timeouts {
  timing_wheel = record {
    wheels = round_wheel ∷ fresh_wheel ∷ [];
    curtick = 99;
    tick_interval = 1;
    nwheel = 2;
  };
}

first_ticks-ready : serve_all first_ticks new_timeouts ≡ some ready_timeouts
unfolding serve_all serve new_wheel netyo.Server.Timeouts.tick_connections netyo.Wheel.tick
    netyo.FixedRing.push_back netyo.FixedRing.evict_front
first_ticks-ready = refl

fresh_wheel-IsBlank : IsBlank fresh_wheel
fresh_wheel-IsBlank = record { valid = omega arith; nothing = λ i. get_or-replicate 100 [] i }

round_wheel-IsFull : IsFull 0 round_wheel
round_wheel-IsFull = record {
  valid = omega arith;
  full_size = refl;
  free = refl;
  ours = λ i. rw (get_or-replicate {A = Bucket} 100 [] i) tt;
}

ready-IsWatched : IsWatched ready_timeouts
ready-IsWatched = record {
  running = record {
    counted = refl;
    ready = record {
      some_wheel = omega arith;
      first = round_wheel-IsFull;
      others = λ j one u. let e : j ≡ 1 = omega arith in rw e fresh_wheel-IsBlank;
    };
  };
  wide = refl;
  linked = λ c e h. absurd (ground (arith, h));
}

ready-Follows : Follows ready_timeouts no_countdown
unfolding count_for count
ready-Follows = record {
  watched = ready-IsWatched;
  known = λ c. refl;
  left = λ c. refl;
  closed = λ c. refl;
  only = λ e u q p. absurd (omega (arith, u));
  unmade = λ e u. refl;
  made = refl;
  numbered = λ c u. refl;
  owned = λ e u. absurd (omega (arith, u));
}

serve_all-append :
    (xs ys : List Event) (s : Timeouts) → serve_all (xs ++ ys) s ≡ (serve_all xs s >>= serve_all ys)
unfolding serve_all
serve_all-append [] ys s = refl
serve_all-append (x ∷ xs) ys s = elim (Option-cases (serve x s)) [
  | inl n ↦ rw n refl
  | inr (u, d) ↦ rw d (serve_all-append xs ys u)
]

-- The events after the first ticks find a server that follows the countdowns.
pub serve_all-first_ticks :
    (xs : List Event)
    → (serve_all (first_ticks ++ xs) new_timeouts ≡ serve_all xs ready_timeouts)
      × Follows ready_timeouts no_countdown
serve_all-first_ticks xs = (
  serve_all-append first_ticks xs new_timeouts ∙ ap (λ m. m >>= serve_all xs) first_ticks-ready,
  ready-Follows,
)
