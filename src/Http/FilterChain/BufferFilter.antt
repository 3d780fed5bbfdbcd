-- ===== src/Http/FilterChain/BufferFilter.antt =====
-- envoy/envoy/source/common/http/filter/buffer_filter.cc: the filter that keeps a request back until it is complete.
-- What the timer does, a local reply, is an event of the stream.
use meliproxy.Http.FilterChain.{
  HeadersStatus, continue_headers, stop_iteration, DataStatus, continue_data,
  stop_iteration_and_buffer, TrailersStatus, continue_trailers, Call, headers, body, trailers,
  Effect, Filter,
}
use meliproxy.Shared.{Bool, if◌then◌else◌, none, ◌∷◌, Bytes, [], true, false, List, ◌≡◌}

pub record BufferFilter : Type 0 where
  pub request_timeout : Bool
  pub stream_destroyed : Bool

pub fresh_filter : BufferFilter
fresh_filter = record { request_timeout = false; stream_destroyed = false }

-- The timer is enabled while the request is kept back.
pub decode_headers : Bool → BufferFilter → HeadersStatus × BufferFilter
decode_headers end_stream f =
    if end_stream
    then (continue_headers, f)
    else (stop_iteration, record f { request_timeout = true })

pub decode_data : Bool → BufferFilter → DataStatus × BufferFilter
decode_data end_stream f =
    if end_stream
    then (continue_data, record f { request_timeout = false })
    else (stop_iteration_and_buffer, f)

pub decode_trailers : BufferFilter → TrailersStatus × BufferFilter
decode_trailers f = (continue_trailers, record f { request_timeout = false })

pub on_destroy : BufferFilter → BufferFilter
on_destroy f = record f { request_timeout = false; stream_destroyed = true }

-- The state after calls, the last one first.
pub after_calls : List Call → BufferFilter
unfolding fresh_filter decode_headers decode_data decode_trailers
after_calls [] = fresh_filter
after_calls (headers e ∷ cs) = (decode_headers e (after_calls cs)).1
after_calls (body bytes e ∷ cs) = (decode_data e (after_calls cs)).1
after_calls (trailers ∷ cs) = (decode_trailers (after_calls cs)).1

abbrev pub no_effect : Effect
no_effect = record { adds = none; streaming = true; replies = false }

pub headers_status : List Call → HeadersStatus
unfolding decode_headers after_calls
headers_status (headers e ∷ cs) = (decode_headers e (after_calls cs)).0
headers_status (body bytes e ∷ cs) = continue_headers
headers_status (trailers ∷ cs) = continue_headers
headers_status [] = continue_headers

pub data_answer : List Call → DataStatus × Bytes × Effect
unfolding decode_data after_calls
data_answer (body bytes e ∷ cs) = ((decode_data e (after_calls cs)).0, bytes, no_effect)
data_answer (headers e ∷ cs) = (continue_data, [], no_effect)
data_answer (trailers ∷ cs) = (continue_data, [], no_effect)
data_answer [] = (continue_data, [], no_effect)

-- The filter as the filter chain sees it.
unfoldable pub buffer_filter : Filter
unfolding headers_status data_answer decode_trailers after_calls
buffer_filter = record {
  on_headers = λ cs. (headers_status cs, no_effect);
  on_data = λ cs. data_answer cs;
  on_trailers = λ cs. ((decode_trailers (after_calls cs)).0, no_effect);
}

pub headers_status-headers :
    (cs ds : List Call) → cs ≡ headers false ∷ ds → headers_status cs ≡ stop_iteration
unfolding headers_status decode_headers
headers_status-headers cs ds e = rw e

pub data_answer-body :
    (bytes : Bytes) (e : Bool) (cs ds : List Call)
    → cs ≡ body bytes e ∷ ds
    → data_answer cs ≡ (if e then continue_data else stop_iteration_and_buffer, bytes, no_effect)
unfolding data_answer decode_data
data_answer-body bytes true cs ds e = rw e
data_answer-body bytes false cs ds e = rw e
