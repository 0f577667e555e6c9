-- ===== src/Zend/Layout.antt =====
-- Where the fields of PHP's structures stand: the headers of structs/x86_64, one for
-- each PHP version; Layout/Aarch64.antt has those of structs/aarch64. A field is its byte offset; the structures are packed, so a `_size` is the end
-- of the last field. The fields of a nested structure are counted from the outer one.
pub mod Aarch64
use phpspy.Prelude.{ℕ}

pub record Layout : Type 0 where
  pub array_size : ℕ
  pub array_flags : ℕ
  pub array_table_mask : ℕ
  pub array_data : ℕ
  pub array_num_used : ℕ
  pub executor_size : ℕ
  pub executor_symbol_table : ℕ
  pub executor_current : ℕ
  pub zval_size : ℕ
  pub zval_value : ℕ
  pub zval_type : ℕ
  pub zval_next : ℕ
  pub frame_size : ℕ
  pub frame_opline : ℕ
  pub frame_func : ℕ
  pub frame_this : ℕ
  pub frame_prev : ℕ
  pub function_size : ℕ
  pub function_type : ℕ
  pub function_name : ℕ
  pub function_scope : ℕ
  pub op_array_last_var : ℕ
  pub op_array_vars : ℕ
  pub op_array_filename : ℕ
  pub op_array_line_start : ℕ
  pub class_size : ℕ
  pub class_name : ℕ
  pub string_size : ℕ
  pub string_len : ℕ
  pub string_val : ℕ
  pub op_size : ℕ
  pub op_lineno : ℕ
  pub sapi_size : ℕ
  pub sapi_query_string : ℕ
  pub sapi_cookie_data : ℕ
  pub sapi_path_translated : ℕ
  pub sapi_request_uri : ℕ
  pub sapi_request_time : ℕ
  pub bucket_size : ℕ
  pub bucket_val : ℕ
  pub bucket_key : ℕ
  pub alloc_size : ℕ
  pub alloc_heap : ℕ
  pub heap_size : ℕ
  pub heap_used : ℕ
  pub heap_peak : ℕ
  pub object_size : ℕ
  pub object_properties : ℕ
  pub bind_size : ℕ
  pub bind_parameter : ℕ
  pub bind_paramno : ℕ
  pub bind_name : ℕ
  pub stmt_size : ℕ
  pub stmt_bound_params : ℕ
  pub stmt_object : ℕ
  -- ZEND_CALL_FRAME_SLOT
  pub frame_slot : ℕ

abbrev pub x86_64_80 : Layout
x86_64_80 = record {
  array_size = 36;
  array_flags = 8;
  array_table_mask = 12;
  array_data = 16;
  array_num_used = 24;
  executor_size = 496;
  executor_symbol_table = 304;
  executor_current = 488;
  zval_size = 16;
  zval_value = 0;
  zval_type = 8;
  zval_next = 12;
  frame_size = 64;
  frame_opline = 0;
  frame_func = 24;
  frame_this = 32;
  frame_prev = 48;
  function_size = 156;
  function_type = 0;
  function_name = 8;
  function_scope = 16;
  op_array_last_var = 60;
  op_array_vars = 104;
  op_array_filename = 144;
  op_array_line_start = 152;
  class_size = 16;
  class_name = 8;
  string_size = 25;
  string_len = 16;
  string_val = 24;
  op_size = 28;
  op_lineno = 24;
  sapi_size = 448;
  sapi_query_string = 16;
  sapi_cookie_data = 24;
  sapi_path_translated = 40;
  sapi_request_uri = 48;
  sapi_request_time = 440;
  bucket_size = 32;
  bucket_val = 0;
  bucket_key = 24;
  alloc_size = 8;
  alloc_heap = 0;
  heap_size = 32;
  heap_used = 16;
  heap_peak = 24;
  object_size = 56;
  object_properties = 40;
  bind_size = 76;
  bind_parameter = 0;
  bind_paramno = 32;
  bind_name = 40;
  stmt_size = 384;
  stmt_bound_params = 56;
  stmt_object = 328;
  frame_slot = 5;
}

abbrev pub x86_64_70 : Layout
x86_64_70 = record x86_64_80 {
  executor_size = 488;
  executor_current = 480;
  frame_size = 72;
  frame_prev = 56;
  function_size = 132;
  op_array_last_var = 72;
  op_array_vars = 80;
  op_array_filename = 120;
  op_array_line_start = 128;
  frame_slot = 6;
}

abbrev pub x86_64_71 : Layout
x86_64_71 = record x86_64_80 {
  executor_size = 488;
  executor_current = 480;
  function_size = 132;
  op_array_last_var = 72;
  op_array_vars = 80;
  op_array_filename = 120;
  op_array_line_start = 128;
}

abbrev pub x86_64_72 : Layout
x86_64_72 = record x86_64_80 {
  executor_size = 488;
  executor_current = 480;
  function_size = 132;
  op_array_last_var = 72;
  op_array_vars = 80;
  op_array_filename = 120;
  op_array_line_start = 128;
}

abbrev pub x86_64_73 : Layout
x86_64_73 = record x86_64_80 {
  function_size = 140;
  op_array_last_var = 52;
  op_array_vars = 88;
  op_array_filename = 128;
  op_array_line_start = 136;
}

abbrev pub x86_64_74 : Layout
x86_64_74 = record x86_64_80 {
  function_size = 148;
  op_array_last_var = 52;
  op_array_vars = 96;
  op_array_filename = 136;
  op_array_line_start = 144;
}

abbrev pub x86_64_81 : Layout
x86_64_81 = record x86_64_80 { stmt_size = 368; stmt_object = 312 }

abbrev pub x86_64_82 : Layout
x86_64_82 = record x86_64_80 {
  function_size = 164;
  op_array_last_var = 76;
  op_array_vars = 112;
  op_array_filename = 152;
  op_array_line_start = 160;
  stmt_size = 368;
  stmt_object = 312;
}

abbrev pub x86_64_83 : Layout
x86_64_83 = record x86_64_80 { op_array_last_var = 72; stmt_size = 368; stmt_object = 312 }

abbrev pub x86_64_84 : Layout
x86_64_84 = record x86_64_80 {
  function_size = 180;
  op_array_last_var = 92;
  op_array_vars = 128;
  op_array_filename = 168;
  op_array_line_start = 176;
  stmt_size = 368;
  stmt_object = 312;
}

abbrev pub x86_64_85 : Layout
x86_64_85 = record x86_64_80 {
  executor_size = 520;
  executor_current = 512;
  function_size = 180;
  op_array_last_var = 92;
  op_array_vars = 128;
  op_array_filename = 168;
  op_array_line_start = 176;
  stmt_size = 216;
  stmt_bound_params = 24;
  stmt_object = 160;
}

abbrev pub x86_64_86 : Layout
x86_64_86 = record x86_64_80 {
  executor_size = 520;
  executor_current = 512;
  function_size = 180;
  op_array_last_var = 92;
  op_array_vars = 128;
  op_array_filename = 168;
  op_array_line_start = 176;
  sapi_size = 440;
  sapi_request_time = 432;
  stmt_size = 216;
  stmt_bound_params = 24;
  stmt_object = 160;
}
