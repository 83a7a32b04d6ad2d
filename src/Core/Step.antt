-- ===== src/Core/Step.antt =====
-- core/steps.h: the special action identifiers.
use libworkflow.Prelude.Int.{ℤ, pos, negsuc}

abbrev pub die : ℤ
die = negsuc 1665

abbrev pub cleanup : ℤ
cleanup = negsuc 1019

abbrev pub error : ℤ
error = negsuc 1014

abbrev pub finish : ℤ
finish = negsuc 1009

abbrev pub interrupt : ℤ
interrupt = negsuc 1004

abbrev pub status : ℤ
status = negsuc 999

abbrev pub initialisation : ℤ
initialisation = pos 0

-- The -1 that stands for "no action".
abbrev pub nothing : ℤ
nothing = negsuc 0
