-- ===== src/Codes.antt =====
-- The result codes of src/dsvdc.h, lines 40 to 71.
use libdsvdc.Base.{ℕ, Bool, true, false}

-- The library's own codes, and those that the vdSM sends, by their number.
pub data Code : Type 0 where
  dsvdc_ok err_out_of_memory err_socket err_not_connected err_param err_timeout : Code
  err_property_index err_invalid_property err_discovery err_property_value_type : Code
  err_file_not_found err_database err_data_not_found : Code
  api : ℕ → Code

-- `ret == DSVDC_OK`. The vdSM's code 0, too, is DSVDC_OK.
abbrev pub is_ok : Code → Bool
is_ok dsvdc_ok = true
is_ok _ = false

-- An out parameter that was set, or an error code.
pub data Answer (A : Type 0) : Type 0 where
  done : A → Answer A
  error : Code → Answer A
