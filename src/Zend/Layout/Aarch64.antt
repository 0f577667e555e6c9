-- ===== src/Zend/Layout/Aarch64.antt =====
-- The headers of structs/aarch64, one for each PHP version.
use phpspy.Zend.Layout.{Layout}

abbrev pub aarch64_80 : Layout
aarch64_80 = record {
  array_size = 36;
  array_flags = 8;
  array_table_mask = 12;
  array_data = 16;
  array_num_used = 24;
  executor_size = 496;
  executor_symbol_table = 304;
  executor_current = 488;
  zval_size = 16;
  zval_value = 0;
  zval_type = 8;
  zval_next = 12;
  frame_size = 64;
  frame_opline = 0;
  frame_func = 24;
  frame_this = 32;
  frame_prev = 48;
  function_size = 156;
  function_type = 0;
  function_name = 8;
  function_scope = 16;
  op_array_last_var = 60;
  op_array_vars = 104;
  op_array_filename = 144;
  op_array_line_start = 152;
  class_size = 16;
  class_name = 8;
  string_size = 25;
  string_len = 16;
  string_val = 24;
  op_size = 28;
  op_lineno = 24;
  sapi_size = 432;
  sapi_query_string = 16;
  sapi_cookie_data = 24;
  sapi_path_translated = 40;
  sapi_request_uri = 48;
  sapi_request_time = 424;
  bucket_size = 32;
  bucket_val = 0;
  bucket_key = 24;
  alloc_size = 8;
  alloc_heap = 0;
  heap_size = 32;
  heap_used = 16;
  heap_peak = 24;
  object_size = 56;
  object_properties = 40;
  bind_size = 76;
  bind_parameter = 0;
  bind_paramno = 32;
  bind_name = 40;
  stmt_size = 384;
  stmt_bound_params = 56;
  stmt_object = 328;
  frame_slot = 5;
}

abbrev pub aarch64_70 : Layout
aarch64_70 = record aarch64_80 {
  executor_size = 488;
  executor_current = 480;
  frame_size = 72;
  frame_prev = 56;
  function_size = 132;
  op_array_last_var = 72;
  op_array_vars = 80;
  op_array_filename = 120;
  op_array_line_start = 128;
  frame_slot = 6;
}

abbrev pub aarch64_71 : Layout
aarch64_71 = record aarch64_80 {
  executor_size = 488;
  executor_current = 480;
  function_size = 132;
  op_array_last_var = 72;
  op_array_vars = 80;
  op_array_filename = 120;
  op_array_line_start = 128;
}

abbrev pub aarch64_72 : Layout
aarch64_72 = record aarch64_80 {
  executor_size = 488;
  executor_current = 480;
  function_size = 132;
  op_array_last_var = 72;
  op_array_vars = 80;
  op_array_filename = 120;
  op_array_line_start = 128;
}

abbrev pub aarch64_73 : Layout
aarch64_73 = record aarch64_80 {
  function_size = 140;
  op_array_last_var = 52;
  op_array_vars = 88;
  op_array_filename = 128;
  op_array_line_start = 136;
}

abbrev pub aarch64_74 : Layout
aarch64_74 = record aarch64_80 {
  function_size = 148;
  op_array_last_var = 52;
  op_array_vars = 96;
  op_array_filename = 136;
  op_array_line_start = 144;
}

abbrev pub aarch64_81 : Layout
aarch64_81 = record aarch64_80 { stmt_size = 368; stmt_object = 312 }

abbrev pub aarch64_82 : Layout
aarch64_82 = record aarch64_80 {
  function_size = 164;
  op_array_last_var = 76;
  op_array_vars = 112;
  op_array_filename = 152;
  op_array_line_start = 160;
  stmt_size = 368;
  stmt_object = 312;
}

abbrev pub aarch64_83 : Layout
aarch64_83 = record aarch64_80 { op_array_last_var = 72; stmt_size = 368; stmt_object = 312 }

abbrev pub aarch64_84 : Layout
aarch64_84 = record aarch64_80 {
  function_size = 180;
  op_array_last_var = 92;
  op_array_vars = 128;
  op_array_filename = 168;
  op_array_line_start = 176;
  stmt_size = 368;
  stmt_object = 312;
}

abbrev pub aarch64_85 : Layout
aarch64_85 = record aarch64_80 {
  executor_size = 520;
  executor_current = 512;
  function_size = 180;
  op_array_last_var = 92;
  op_array_vars = 128;
  op_array_filename = 168;
  op_array_line_start = 176;
  stmt_size = 216;
  stmt_bound_params = 24;
  stmt_object = 160;
}

abbrev pub aarch64_86 : Layout
aarch64_86 = record aarch64_80 {
  executor_size = 520;
  executor_current = 512;
  function_size = 180;
  op_array_last_var = 92;
  op_array_vars = 128;
  op_array_filename = 168;
  op_array_line_start = 176;
  sapi_size = 424;
  sapi_request_time = 416;
  stmt_size = 216;
  stmt_bound_params = 24;
  stmt_object = 160;
}
