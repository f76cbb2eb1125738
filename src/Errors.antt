-- ===== src/Errors.antt =====
-- The errors of the program: a constructor for each place that makes one. `sys` is an error of the
-- operating system or of the standard library, with its text; `wrapped` is `fmt.Errorf` around
-- another error, whose text it keeps.
use watchmaker.Prelude.{ℕ}
use watchmaker.Go.Text.{Bytes}

pub data Error : Type 0 where
  sys : Bytes → Error
  wrapped : Error → Error
  both : Error → Error → Error
  unknown_clock_id : Bytes → Error
  bad_number : Bytes → Error
  wait_pid : ℕ → Error
  too_many_arguments mmap_null mmap_failed padding : Error
  mmap_code : ℕ → Error
  no_symbol : Bytes → Error
  no_vdso variable_count variable_space no_variable : Error
  bad_machine : Error
  bad_offset : Bytes → Error
  unknown_format : Bytes → Error
  too_short : Bytes → Error
  bad_zone : Bytes → Error
  ambiguous : Error
