-- ===== src/Stdio/Format/Upper.antt =====
-- `toupper`.
use lord.Prelude.{ℕ, ◌-◌, ◌≡◌, not, ◌&&◌, arith, leb, ◌==◌, if◌then◌else◌}
use lord.Stdio.Format.{toupper}

-- `toupper` turns every small letter but `q` into its capital, and keeps every other character, `q`
-- included.
pub toupper_lem :
    (c : ℕ) → toupper c ≡ (if leb b'a' c && leb c b'z' && not (c == b'q') then c - 32 else c)
unfolding toupper
toupper_lem c = ground arith
