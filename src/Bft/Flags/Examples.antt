-- ===== src/Bft/Flags/Examples.antt =====
-- Runs of flags.cpp at single words.
use rechnernetze.Base.{◌≡◌, refl, codes}
use rechnernetze.Bft.Flags.{
  or_flags, xor_flags, clear_flag, flags_to_str, no_flags, sqn, ack, agn, syn,
}

both_set : or_flags syn ack ≡ 18
unfolding or_flags
both_set = refl

cleared : clear_flag 18 ack ≡ syn
unfolding clear_flag
cleared = refl

toggled : xor_flags 18 syn ≡ ack
unfolding xor_flags
toggled = refl

printed : flags_to_str (or_flags agn sqn) ≡ codes "AGN SQN"
unfolding flags_to_str or_flags
printed = refl

printed_none : flags_to_str no_flags ≡ codes "(no flags)"
unfolding flags_to_str
printed_none = refl

-- A bit that names no flag prints as nothing.
printed_unknown : flags_to_str 64 ≡ codes ""
unfolding flags_to_str
printed_unknown = refl
