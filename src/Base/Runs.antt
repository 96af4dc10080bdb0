-- ===== src/Base/Runs.antt =====
-- What a run of the program's code computes with: the helpers of this folder.
use swarm_z.Base.Numbers.{
  unit, of_nat, is_finite, is_integer, lt_num, le_num, eq_num, add_nat, sub_nat, add_num, sub_num,
  max_num, min_num, floor_num, is_safe_natural,
}
use swarm_z.Base.Doubles.{mul_num, round_num, round_even, round_signed, product}
use swarm_z.Base.Lists.{any, every, select, find, first, last, insert_by, sort_by, filter_map, take}
use swarm_z.Base.Texts.{
  text_eq, trim, is_empty, truthy, is_blank, is_alphanumeric, is_hex_digit, mem, has_duplicates,
  text_lt, is_prefix, distinct,
}
use swarm_z.Base.Dicts.{get, put, values, delete_where}

unfoldable pub library : Unit {0}
unfolding floor_num mul_num round_num round_even round_signed product is_safe_natural text_lt
    is_prefix distinct add_num sub_num max_num min_num unit of_nat is_finite is_integer lt_num
    le_num eq_num add_nat sub_nat any every select find first last insert_by sort_by filter_map take
    text_eq trim is_empty truthy is_blank is_alphanumeric is_hex_digit mem has_duplicates get put
    values delete_where
library = tt
