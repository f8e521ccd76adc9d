-- ===== src/Cq/Channel.antt =====
-- pkg/cq/dispatcher.go: ChannelHandler, which hands completions to Go channels.
use golinker.Base.{ℕ, Bool, true, false, if◌then◌else◌}
use golinker.Api.{WorkCompletion}
use golinker.Errors.{Error, Result, ok, err, panic, diverge}
use golinker.Go.Chan.{Chan, make, try_send}
use golinker.Go.Int.{ℤ, pos, le_int, to_nat}
use golinker.Go.State.{Call}
use golinker.Go.Word.{inc64}

pub record ChannelHandler : Type 0 where
  pub completions : Chan WorkCompletion
  pub errors : Chan Error
  pub dropped : ℕ

unfoldable pub new_channel_handler : ℤ → ChannelHandler
new_channel_handler buf_size =
    let size : ℕ = if le_int buf_size (pos 0) then 64 else to_nat buf_size in
    record { completions = make size; errors = make size; dropped = 0 }

-- A full channel drops the completion and counts it.
delivered :
    ChannelHandler → Result (Bool × Chan WorkCompletion) → Result (Unit {0}) × ChannelHandler
delivered h (ok (true, ch)) = (ok tt, record h { completions = ch })
delivered h (ok (false, ch)) = (ok tt, record h { dropped = inc64 h.dropped })
delivered h (err e) = (err e, h)
delivered h panic = (panic, h)
delivered h diverge = (diverge, h)

unfoldable pub on_completion : WorkCompletion → Call ChannelHandler (Unit {0})
unfolding delivered
on_completion wc h = delivered h (try_send h.completions wc)

-- A full channel drops the error, uncounted.
reported : ChannelHandler → Result (Bool × Chan Error) → Result (Unit {0}) × ChannelHandler
reported h (ok (_, ch)) = (ok tt, record h { errors = ch })
reported h (err e) = (err e, h)
reported h panic = (panic, h)
reported h diverge = (diverge, h)

unfoldable pub on_error : Error → Call ChannelHandler (Unit {0})
unfolding reported
on_error e h = reported h (try_send h.errors e)
