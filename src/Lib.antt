-- ===== src/Lib.antt =====
-- A verification library for Envoy, the proxy at the core of this repository, as it stands under
-- envoy/envoy. It models parts of Envoy's own C++; the paths below start at envoy/envoy/source.
--
-- Conventions. A std::string, and a slice of a buffer, is the list of its bytes. A word is a
-- native number; increments, decrements, shifts and products wrap as the source's type does.
-- ASSERT is only checked in debug builds, so a model does what the release build does, and where
-- an assertion is relied on the theorem states it. Locks and atomics are left out: an operation is
-- one step, and the order of the steps is arbitrary. Random numbers are a stream given from
-- outside, and time is an argument.
--
-- Shared: numbers, lists, words and bits that the parts have in common.
-- Runtime: common/runtime, the snapshot behind `getInteger` and `featureEnabled`. Reading the
--   values from disk is not modelled. Used by the retry state, the breakers, the balancers and the
--   checkers.
-- Common.StringUtil: common/common/utility.cc. The C library's strtoul is a parameter.
-- Common.Base64, Common.Hex: common/common/base64.cc and hex.cc.
-- Buffer.Watermark: common/buffer/watermark_buffer.cc, on the lengths of the libevent buffer
--   below.
-- Grpc.Codec: common/grpc/codec.cc, the decoder of gRPC frames, as a machine over the slices of a
--   buffer. A slice's loop has the slice's length as fuel, since a round takes a byte at least.
-- Redis.Codec, Redis.Encoder: common/redis/codec_impl.cc, values, the encoder, and the decoder as
--   a machine over the slices of a buffer. Its rounds may take no byte, so a slice's loop has fuel
--   for four rounds to a byte and one to each entry of the stack. The pointers of the stack into
--   the arrays are replaced by the values themselves, which are written back when they are
--   complete. The most elements that a vector of the standard library has are a field of the
--   decoder, and an array beyond them is the error that the vector throws.
-- Upstream.Resource: common/upstream/resource_manager_impl.h, the circuit breakers.
-- Upstream.HealthChecker: common/upstream/health_checker_impl.cc, the sessions that all kinds of
--   health checkers share. What the HTTP, TCP and Redis checkers do on their connections is not
--   modelled.
-- Upstream.LoadBalancer: common/upstream/load_balancer_impl.cc, panic and locality routing and the
--   three balancers, over the runtime. A read past the end of a vector is a value of the model.
-- Upstream.OutlierDetection: common/upstream/outlier_detection_impl.cc, the detector that takes
--   hosts with many errors out of rotation, over the runtime. Doubles are a parameter.
-- Upstream.RingHash: common/upstream/ring_hash_lb.cc, the rings of hashes and the search in them.
--   The hash of a string and the sort are parameters. The search has the length of the ring and
--   two as fuel.
-- Http.ConnPool: common/http/http1/conn_pool.cc, the pool of HTTP/1 connections, over
--   Upstream.Resource. A callback of the pool is written down, and what it calls in its turn is a
--   later event.
-- Http.HeaderString, Http.HeaderMap: common/http/header_map_impl.cc, the strings of headers with
--   their three kinds of buffer, the trie of the inline headers, and the list of headers with
--   pointers to them.
-- Http.FilterChain: common/http/conn_manager_impl.cc, how a request passes through the decoder
--   filters of a stream, with common/http/filter/buffer_filter.cc as one of them. A filter is what
--   it answers from the calls that it has had. A loop of the source over the rest of the list of
--   filters is a function of that rest, so that a loop that a filter starts anew is the same
--   function. Http.FilterChain.Order has the invariant, Spares and Iteration that the loops keep it,
--   Steps the events; Transparent, Passing, Holding and Buffering are about filters of two kinds.
--   The buffered data has the limit of the source, beyond which the request ends in a local reply;
--   how the watermarks stop the reading from the client, and the way of the response, are left out.
-- Http.DownstreamWatermarks: common/http/conn_manager_impl.cc, the count of the full buffers of a
--   stream and the callbacks that are told of them.
-- Server.InitManager: server/init_manager_impl.cc, the targets that the server waits for at its
--   start. A target that registers another while it is initialized is not covered.
-- Server.DrainManager: server/drain_manager_impl.cc, how connections are closed more and more while
--   the server drains.
-- Router.Retry: common/router/retry_state_impl.cc, which decides on retries, over the runtime and
--   the retry resource.
--
-- Not modelled: the server's configuration, listeners, connections and the HTTP codecs, the rest of
-- the connection manager, the router's routes, the pool of HTTP/2, the other filters, tracing,
-- statistics sinks and the generated or vendored code, which the parts above only call or are called
-- by.
pub mod Shared
pub mod Grpc
pub mod Runtime
pub mod Common
pub mod Upstream
pub mod Router
pub mod Server
pub mod Http
pub mod Redis
pub mod Buffer
