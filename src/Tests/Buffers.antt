-- ===== src/Tests/Buffers.antt =====
-- `Buffer` of src/net/Buffer.h at small buffers.
use netyo.Prelude.{ℕ, ◌≡◌, refl, arith, List, [], ◌∷◌, ◌++◌, none, some, take, inl}
use netyo.Ring.{Ring, contents, new_ring, reserve, ensure_space, mod_index, write_at}
use netyo.Ring.Entries.{IsValid}
use netyo.Buffer.{
  feed_wbuffer, copy_in, drain_wbuffer, drain_first, drain_second, drained, read_span, feed_rbuffer,
  free_spans, scatter, drain_rbuffer, Drained,
}
use netyo.Buffer.Append.{feed_wbuffer-append}
use netyo.Buffer.Overflow.{second_send-overflow}
use netyo.Buffer.Drain.{Outcome, drain_wbuffer-Outcome}
use netyo.Buffer.Resend.{drain_wbuffer-resend}
use netyo.Buffer.Peek.{drain_rbuffer-copied}
use netyo.Buffer.Fill.{Filled, feed_rbuffer-Filled}
use netyo.Buffer.Hole.{scatter-hole}
use netyo.Tests.World.{Line, line_socket}

abbrev flat : Ring ℕ
flat = record { vec = 1 ∷ 2 ∷ 3 ∷ 4 ∷ 5 ∷ 6 ∷ 7 ∷ []; lo = 3; hi = 5 }

abbrev turned : Ring ℕ
turned = record { vec = 1 ∷ 2 ∷ 3 ∷ 4 ∷ 5 ∷ 6 ∷ 7 ∷ []; lo = 5; hi = 2 }

abbrev emptied : Ring ℕ
emptied = record { vec = 1 ∷ 2 ∷ 3 ∷ 4 ∷ 5 ∷ 6 ∷ 7 ∷ []; lo = 5; hi = 5 }

abbrev reply : List ℕ
reply = 1 ∷ 2 ∷ 3 ∷ 4 ∷ 5 ∷ 6 ∷ 7 ∷ []

-- A line that takes two bytes, fails once, and then takes more.
abbrev slow_line : Line
slow_line = record { inbox = 8 ∷ 9 ∷ []; outbox = []; quota = 2 }

abbrev fast_line : Line
fast_line = record { inbox = 8 ∷ 9 ∷ []; outbox = []; quota = 50 }

-- The copy goes round the end of the vector.
feed_wbuffer-flat :
    feed_wbuffer flat (8 ∷ 9 ∷ 10 ∷ [])
    ≡ some (record { vec = 10 ∷ 2 ∷ 3 ∷ 4 ∷ 5 ∷ 8 ∷ 9 ∷ []; lo = 3; hi = 1 }, 3)
unfolding feed_wbuffer copy_in ensure_space reserve write_at mod_index
feed_wbuffer-flat = refl

feed_wbuffer-append_example :
    (g : Ring ℕ) × (feed_wbuffer flat (8 ∷ 9 ∷ 10 ∷ []) ≡ some (g, 3))
    × IsValid g
    × (contents 0 g ≡ contents 0 flat ++ 8 ∷ 9 ∷ 10 ∷ [])
feed_wbuffer-append_example =
    feed_wbuffer-append flat (8 ∷ 9 ∷ 10 ∷ []) (omega arith) (inl (omega arith))

abbrev filled : Ring ℕ
filled = record { vec = 1 ∷ 2 ∷ 3 ∷ 4 ∷ 5 ∷ 6 ∷ 7 ∷ 0 ∷ []; lo = 0; hi = 7 }

abbrev all_sent : Line
all_sent = record { inbox = 8 ∷ 9 ∷ []; outbox = reply; quota = 43 }

second_send-overflow_example : feed_wbuffer (record filled { lo = 7 }) (8 ∷ 9 ∷ []) ≡ none
unfolding feed_wbuffer copy_in ensure_space reserve write_at mod_index new_ring drain_wbuffer
    drain_first drain_second drained read_span
second_send-overflow_example =
    second_send-overflow line_socket fast_line all_sent reply (8 ∷ 9 ∷ []) filled
      (record filled { lo = 7 }) (omega arith) (omega arith) refl refl

drain_wbuffer-Outcome_example :
    (out : Drained line_socket) × (drain_wbuffer line_socket slow_line turned ≡ some out)
    × Outcome line_socket slow_line turned out
drain_wbuffer-Outcome_example = drain_wbuffer-Outcome line_socket slow_line turned (omega arith)

abbrev half_sent : Line
half_sent = record { inbox = 8 ∷ 9 ∷ []; outbox = 6 ∷ 7 ∷ []; quota = 100 }

abbrev sent_twice : Line
sent_twice = record { inbox = 8 ∷ 9 ∷ []; outbox = 6 ∷ 7 ∷ 6 ∷ 7 ∷ 1 ∷ 2 ∷ []; quota = 96 }

drain_wbuffer-resend_example : sent_twice.outbox ≡ 6 ∷ 7 ∷ 6 ∷ 7 ∷ 1 ∷ 2 ∷ []
unfolding drain_wbuffer drain_first drain_second drained read_span mod_index contents
drain_wbuffer-resend_example =
    drain_wbuffer-resend line_socket slow_line half_sent sent_twice turned turned
      (record turned { lo = 2 }) 0 (omega arith) refl (λ h. cc) refl

-- Two bytes are copied to a place for one.
drain_rbuffer-copied_example : drain_rbuffer turned 1 ≡ some (take 2 (contents 0 turned), 1)
drain_rbuffer-copied_example = drain_rbuffer-copied turned 1 (omega arith) (omega arith)

feed_rbuffer-Filled_example :
    (out : Line × Ring ℕ × ℕ) × (feed_rbuffer line_socket fast_line turned ≡ some out)
    × Filled line_socket fast_line turned 0 out
feed_rbuffer-Filled_example = feed_rbuffer-Filled line_socket fast_line turned (omega arith)

-- A read of three bytes into `flat`: the stale 7 stands among them, and the last is lost.
scatter-hole_example :
    (s : Ring ℕ) × (scatter flat 1 (8 ∷ 9 ∷ 10 ∷ []) ≡ some s)
    × IsValid s
    × (contents 0 s ≡ contents 0 flat ++ (8 ∷ 7 ∷ 9 ∷ []))
unfolding free_spans
scatter-hole_example =
    scatter-hole flat (8 ∷ 9 ∷ 10 ∷ []) (omega arith) (omega arith) (omega arith) (omega arith)
