-- ===== src/Tests/StreamRuns.antt =====
-- Responses of the streaming mode.
use rupicola_go.Base.{
  length, Bytes, lit, [], ◌∷◌, ◌++◌, none, some, true, false, ◌≡◌, refl, arith, bytes_eq, List, All,
}
use rupicola_go.Rpc.Value.{float, other, obj, field, end, text, Reader}
use rupicola_go.Rpc.Limit.{◌or_return◌}
use rupicola_go.Rpc.Streaming
use rupicola_go.Rpc.Streaming.{Streaming, send}
use rupicola_go.Rpc.Streaming.Lines.{cut, outcome, deliver, joined, NoNewline}
use rupicola_go.Rpc.Streaming.Append.{IsOpen, write-append}
use rupicola_go.Rpc.Streaming.Whole.{write_lines_whole, write_chunks_whole}
use rupicola_go.Rpc.Streaming.Chunks.{deliver_chunks, Cut}
use rupicola_go.Rpc.Streaming.Final.{IsFinal, set_response_error-IsFinal}
use rupicola_go.Rpc.Process.{
  in_time, process_context, spawn_request, read_from_transport, process, dispatch, identified,
  ensure_protocol, close, finish_response, serve_method, invoke_method, run_calls, call,
  set_response_result, copy_flushed, forced,
}
use rupicola_go.Rpc.Process.Streams.{sent, legacy_output}
use rupicola_go.Rpc.Process.Upgrades.{stream_output}
use rupicola_go.Rpc.Streaming.Objects.{encode_all}
use rupicola_go.Rpc.Decode.{Body, document}
use rupicola_go.Rpc.Responser
use rupicola_go.Rpc.Responser.{Responser, legacy, streaming, transport}
use rupicola_go.Rpc.Base.{Response, encode_response, max_response, set_id}
use rupicola_go.Rpc.Errors
use rupicola_go.Rpc.Registry.{MethodDef, Processor, find_method, empty_by_type}
use rupicola_go.Rpc.Decode.{read_from, is_valid}
use rupicola_go.Rpc.Limit.{Outcome}
use rupicola_go.Rpc.Value.{reader, set_result, streaming_method_legacy}
use rupicola_go.Base.{some, none, ◌^◌, ◌-◌, bytes_eq}
use rupicola_go.Tests.{limited_to, program_output, run_request, one_method, log_env}

abbrev lines_open : Streaming Bytes
lines_open = record {
  base = record {
    limiter = record { sink = []; room = 100 };
    failed = none;
    result_set = false;
    id = some (float (lit "7"));
  };
  buffer = lit "a";
  chunk_size = 0;
  first_write = true;
  is_closed = false;
}

write-append_example : outcome (Streaming.write log_env (lit "b" ++ 10 ∷ lit "c") lines_open) ≡ (
    outcome (Streaming.write log_env (lit "b") lines_open) or_return λ b'.
    outcome (Streaming.write log_env (10 ∷ lit "c") b'))
write-append_example = write-append log_env (lit "b") (10 ∷ lit "c") lines_open refl

abbrev lines_behind : Streaming Bytes
lines_behind = record lines_open { first_write = false }

lines_behind-IsOpen : IsOpen log_env lines_behind
lines_behind-IsOpen = record { closed = refl; chunk = refl; first = refl }

write_lines_whole_example :
    (ls : List Bytes) × (rest : Bytes) × (outcome
        (Streaming.write log_env (lit "b" ++ 10 ∷ lit "c") lines_behind)
      ≡ deliver log_env ls rest lines_behind)
    × (joined ls rest ≡ lit "ab" ++ 10 ∷ lit "c")
    × All NoNewline ls
    × NoNewline rest
write_lines_whole_example =
    write_lines_whole log_env (lit "b" ++ 10 ∷ lit "c") lines_behind lines_behind-IsOpen
      (λ e. ground (arith, e), tt)

set_response_error-IsFinal_example :
    IsFinal log_env (Streaming.set_response_error log_env (other (lit "boom")) lines_open).1
unfolding Streaming.set_response_error
set_response_error-IsFinal_example =
    set_response_error-IsFinal log_env (other (lit "boom")) lines_open refl refl

abbrev chunks_behind : Streaming Bytes
chunks_behind = record lines_behind { chunk_size = 2 }

write_chunks_whole_example :
    (cs : List Bytes) × (rest : Bytes) × (outcome
        (Streaming.write log_env (lit "bcdef") chunks_behind)
      ≡ deliver_chunks log_env cs rest chunks_behind)
    × Cut log_env 2 (lit "abcdef") cs rest
write_chunks_whole_example =
    write_chunks_whole log_env (lit "bcdef") chunks_behind refl refl (omega arith) (omega arith)

abbrev streams : MethodDef Unit
streams = limited_to 0 (λ r. set_result (reader program_output) ∷ [])

abbrev streaming_method_table : Processor Unit
streaming_method_table = record one_method {
  methods = (lit "run", record empty_by_type { at_legacy = some streams }) ∷ [];
}

abbrev legacy_result : Outcome (Responser log_env)
legacy_result = (
  none,
  legacy (record {
    limiter = record { sink = lit "hello"; room = 2 ^ 63 - 6 };
    failed = none;
    result_set = false;
    id = some (float (lit "7"));
  }),
)

run-legacy :
    process_context {E = log_env} streaming_method_table run_request streaming_method_legacy tt
      in_time none []
    ≡ some legacy_result
unfolding process_context spawn_request read_from_transport process dispatch identified
    ensure_protocol close finish_response serve_method invoke_method run_calls call
    set_response_result copy_flushed read_from is_valid find_method bytes_eq forced
    Responser.new_responser Responser.copy_reader Responser.copy_chunk Responser.write
    Responser.limit_response Responser.identify Responser.close
run-legacy = refl

legacy_output_example :
    (legacy_result.0 ≡ none)
    × (transport log_env legacy_result.1 ≡ sent log_env program_output.chunks [])
unfolding read_from is_valid find_method bytes_eq
legacy_output_example =
    legacy_output log_env streaming_method_table run_request tt none [] streams refl refl refl refl
      (omega arith) program_output (λ p s. (refl, refl)) run-legacy refl (omega arith)

abbrev upgraded_request : Body
upgraded_request =
    document
      (obj (
        field (lit "jsonrpc") (text (lit "2.0+s"))
          (field (lit "method") (text (lit "run")) (field (lit "id") (float (lit "7")) end))))
      false

abbrev two_lines : Reader
two_lines = record { chunks = lit "he" ∷ [] ∷ (lit "llo" ++ 10 ∷ lit "you") ∷ []; fault = none }

abbrev talking : MethodDef Unit
talking = limited_to 0 (λ r. set_result (reader two_lines) ∷ [])

abbrev talking_table : Processor Unit
talking_table = record one_method {
  methods = (lit "run", record empty_by_type { at_legacy = some talking }) ∷ [];
}

abbrev stream_text : Bytes
stream_text = lit "result OKline helloline youresult Done"

abbrev stream_base : Response Bytes
stream_base = record {
  limiter = record { sink = stream_text; room = 2 ^ 63 - 1 - length stream_text };
  failed = none;
  result_set = false;
  id = some (float (lit "7"));
}

abbrev stream_result : Outcome (Responser log_env)
stream_result = (
  none,
  streaming (record {
    base = stream_base;
    buffer = [];
    chunk_size = 0;
    first_write = false;
    is_closed = true;
  }),
)

run-stream :
    process_context {E = log_env} talking_table upgraded_request streaming_method_legacy tt in_time
      none []
    ≡ some stream_result
unfolding process_context spawn_request read_from_transport process dispatch identified
    ensure_protocol close finish_response serve_method invoke_method run_calls call
    set_response_result copy_flushed read_from is_valid find_method bytes_eq forced
    Responser.new_responser Responser.copy_reader Responser.copy_chunk Responser.write
    Responser.limit_response Responser.identify Responser.close
    Responser.change_protocol_if_required Streaming.write Streaming.close send
    Streaming.write_header Streaming.write_body Streaming.write_lines Streaming.split_after
    Streaming.write_piece
run-stream = refl

stream_output_example : (stream_result.0 ≡ none) × (transport log_env stream_result.1 ≡ stream_text)
unfolding read_from is_valid find_method bytes_eq encode_all encode_response max_response cut
    Errors.new_result_ex set_id Streaming.new_streaming_response
stream_output_example =
    stream_output log_env talking_table upgraded_request tt none [] talking refl refl refl refl
      two_lines {base = stream_base} run-stream refl refl (λ e. ground (arith, e)) refl
