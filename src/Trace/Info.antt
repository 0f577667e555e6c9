-- ===== src/Trace/Info.antt =====
-- What a trace tells besides the frames: `trace_request_info`, `trace_memory_info`, `trace_globals`.
use phpspy.Prelude.{
  ℕ, ◌+◌, ◌==◌, if◌then◌else◌, Bool, not, ◌&&◌, none, some, List, [], ◌∷◌, ◌++◌, length,
}
use phpspy.Prelude.Text.{c_str, Text}
use phpspy.Event.{request, mem, glopeek}
use phpspy.Zend.Remote.{attempt, copy_proc_mem, at_offset, member, field}
use phpspy.Zend.Print.{copy_zarray_bucket, sprint_zarray_val}
use phpspy.Trace.{GlopeekEntry, Env, Action, ◌>>=◌, ◌>>◌, return, read, send, str_size}

-- `try_copy_sapi_global_field`: the bytes of the field, `-` and a NUL where it is not wanted.
unfoldable pub request_field : Env → Bool → ℕ → Action Text
unfolding copy_proc_mem
request_field e wanted raddr =
    if wanted && not (raddr == 0)
    then read (copy_proc_mem e.target raddr str_size)
    else return (b'-' ∷ 0 ∷ [])

-- The handler prints the fields with `%s`. A field that has no NUL runs on into the next one.
unfoldable pub trace_request_info : Env → Action (Unit {0})
unfolding copy_proc_mem field request_field c_str send
trace_request_info e = do
  let t = e.target
  let l = t.layout
  let o = e.options
  sapi ← read (copy_proc_mem t t.sapi_globals_addr l.sapi_size)
  qstring ← request_field e o.capture_req_qstring (field l.sapi_query_string 8 sapi)
  cookie ← request_field e o.capture_req_cookie (field l.sapi_cookie_data 8 sapi)
  uri ← request_field e o.capture_req_uri (field l.sapi_request_uri 8 sapi)
  path ← request_field e o.capture_req_path (field l.sapi_path_translated 8 sapi)
  let ts = member l.sapi_request_time 8 sapi
  send e (
      request (record {
        uri = c_str (uri ++ (path ++ (qstring ++ (cookie ++ ts))));
        path = c_str (path ++ (qstring ++ (cookie ++ ts)));
        qstring = c_str (qstring ++ (cookie ++ ts));
        cookie = c_str (cookie ++ ts);
        ts = t.print_double ts;
      }))

unfoldable pub trace_memory_info : Env → Action (Unit {0})
unfolding copy_proc_mem field send
trace_memory_info e = do
  let t = e.target
  let l = t.layout
  alloc_globals ← read (copy_proc_mem t t.alloc_globals_addr l.alloc_size)
  heap ← read (copy_proc_mem t (field l.alloc_heap 8 alloc_globals) l.heap_size)
  send e (mem (record { size = field l.heap_used 8 heap; peak = field l.heap_peak 8 heap }))

-- The array in which a variable stands: a superglobal, or the symbol table.
unfoldable pub global_array : Env → ℕ → GlopeekEntry → Action ℕ
unfolding copy_zarray_bucket field
global_array e symtable entry =
    let t = e.target in
    let l = t.layout in
    let superglobal : Action ℕ =
      (read (copy_zarray_bucket e.depth t symtable entry.gloname) >>= λ bucket.
      return (field (l.bucket_val + l.zval_value) 8 bucket)) in
    if length entry.gloname == 0 then return symtable else superglobal

-- The loop over `glopeek_map`. A variable that cannot be printed is passed over.
unfoldable pub peek_globals : Env → ℕ → List GlopeekEntry → Action (Unit {0})
unfolding global_array sprint_zarray_val send
peek_globals e symtable [] = return tt
peek_globals e symtable (entry ∷ entries) = do
  array ← global_array e symtable entry
  text ← read (attempt (sprint_zarray_val e.depth e.target array entry.varname str_size))
  elim text [
    | none ↦ return tt
    | some s ↦ send e (glopeek (record { key = entry.key; zval_str = s }))
  ]
  peek_globals e symtable entries

unfoldable pub trace_globals : Env → Action (Unit {0})
unfolding peek_globals
trace_globals e =
    peek_globals e (at_offset e.target.executor_globals_addr e.target.layout.executor_symbol_table)
      e.glopeek_map
