-- ===== src/DateParse/Loop.antt =====
-- date_parse.go: the two loops of `parseTime` have one shape. The index is Go's `int`, and a turn may
-- move it; fuel bounds the number of turns.
use watchmaker.Prelude.{ℕ, zero, suc, ◌+◌, Bool, true, false, ltb, length}
use watchmaker.Prelude.Int.{ℤ, pos, negsuc}
use watchmaker.Prelude.Outcome.{Outcome, ok, panic, hung}
use watchmaker.Go.Text.{Bytes}
use watchmaker.Errors.{Error}
use watchmaker.DateParse.Fields.{Parser}
use watchmaker.DateParse.Steps.{Found, Step, next, leave, swap, gives, again, crash}

-- What `parseTime` does at a `return`: it gives its results, or those of a call with another text.
-- `datestr` comes first.
pub data Reply : Type 0 where
  gave : Bytes → Found → Reply
  calls : Bytes → Bytes → Bool → Reply

-- How a loop ends: with `datestr`, `i` and `p` behind it, or with a `return`.
pub data Stop : Type 0 where
  behind : Bytes → ℤ → Parser → Stop
  replies : Reply → Stop

-- `i++`.
abbrev pub raised : ℤ → ℤ
raised (pos n) = pos (n + 1)
raised (negsuc zero) = pos 0
raised (negsuc (suc n)) = negsuc n

abbrev pub Turn : Type 0
Turn = Bytes → ℕ → Parser → Step

-- Behind a turn: the next turn, or the end of the loop.
abbrev pub continued : (Bytes → ℤ → Parser → Outcome Error Stop) → Bytes → Step → Outcome Error Stop
continued more s (next j q) = more s (raised j) q
continued more s (leave j q) = ok (behind s j q)
continued more s (swap t j q) = more t (raised j) q
continued more s (gives f) = ok (replies (gave s f))
continued more s (again local text kept) = ok (replies (calls local text kept))
continued more s crash = panic

unfoldable pub loop : Turn → ℕ → Bytes → ℤ → Parser → Outcome Error Stop
loop turn zero s i p = hung
loop turn (suc n) s (negsuc k) p = panic
loop turn (suc n) s (pos i) p = elim (ltb i (length s)) [
  | false ↦ ok (behind s (pos i) p)
  | true ↦ continued (loop turn n) s (turn s i p)
]
