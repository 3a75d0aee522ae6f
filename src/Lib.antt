-- ===== src/Lib.antt =====
-- SmartThings-Local talks to Samsung appliances on the local network. Its wire formats are CoAP
-- in datagrams (under DTLS), CoAP over a byte stream, and the frames that carry such messages
-- over Bluetooth; a session exchanges messages, a poll scheduler reads the resources of the
-- appliance in tiers, a state cache holds what was read, notified or written, and a keepalive
-- task decides whether the appliance can be reached. The library models the wire formats and what
-- runs on top of a session.
--
-- Files, and the code that each is about (paths from the repository's root):
--   Coap/          smartthings_local/protocol/coap.py
--     Options        _vlen, encode_options, and the option loop of parse_coap
--     Wire           build_coap, build_empty_ack, parse_coap_message
--     Block          block_value, block_fields, decode_uint_option
--     Request        build_get_request
--     Flight         split_dtls
--     Response       classify_coap_response
--     Placement, Accumulator
--                    Block2Accumulator: where a block goes, and add_response
--   CoapTcp/       smartthings_local/protocol/coap_tcp.py
--     Options        _normalize_options, _encode_options, _decode_options
--     Frame          _encode_length, _decode_length, build_coap_tcp_message,
--                    parse_coap_tcp_message
--     Stream         CoapTcpStreamDecoder
--     Csm            encode_uint_option, build_coap_tcp_csm
--     Requests       _path_options, build_coap_tcp_get, build_coap_tcp_post,
--                    build_coap_tcp_delete
--   Session/       smartthings_local/protocol/dtls_session.py
--     Observe        _observe_sequence_is_fresh
--     Mids           _next_available_mid_locked
--     Pending        _register_pending_request, _unregister_pending_request, _next_tok
--     Relations      _retire_observe_token_locked, _clear_observe_relations,
--                    _observe_sequence_for, _observe_relation_active
--     Blocks         _block_num_matches, _block1_response_matches
--     Recording      what _dispatch_coap records of a notification
--     Refetch        _queue_refetch, the taking of _refetch_loop, _discard_refetches_for_hrefs
--     Dispatch       _dispatch_coap, _deliver_observation
--     Worker         _close_pending_requests, _refetch_one
--     Upload         _post_blockwise
--     Read           _blockwise_get, _blockwise_get_once
--   Ble/           smartthings_local/protocol/ble_ocf.py
--     Frame          encode_header, decode_header, fragment_pdu
--     Reassembler    BleOcfReassembler, AdaptiveBleOcfReassembler
--   DtlsPsk/       smartthings_local/protocol/_dtls_psk.py
--     ReplayWindow   _ReplayWindow
--     Transform      _Transform
--     Reassembly     DtlsPskClient._reassemble
--     Client         DtlsPskClient: its state and the memory BIO
--       Emit           _prf, _emit_record, _emit_handshake, _send_client_hello,
--                      _send_client_flight
--       Handshake      the handlers of handshake messages, _deliver_ready,
--                      _handle_handshake_fragment
--       Records        _handle_record, _handle_alert, _drain_inbox
--       Calls          do_handshake, send, recv, shutdown, the timeouts
--   Ocf/           smartthings_local/ocf/
--     Keepalive      keepalive.py, KeepaliveTask
--     StateCache     state_cache.py, StateCache
--     PollScheduler  poll_scheduler.py, PollScheduler
--     Dict           Python's dicts, as the modelled code uses them
--   Errors         smartthings_local/errors.py, and results with an exception
--   Prelude        shared names, tests, lists over native numbers, bytes
-- The modules below a component hold its lemmas and theorems; Examples, TransferExamples,
-- RequestExamples, DispatchExamples, ReadExamples and ClientExamples hold tests at concrete values.
--
-- How state and calls correspond: an object is a record of its fields, a method is a function
-- from the record and the arguments to the new record and the result, and an exception is a value
-- of Errors.Result. Bytes are lists of numbers, and a theorem that needs them below 256 says so.
-- A cursor or an offset into bytes is the list that is left. A dict is its list of pairs in the
-- order of insertion. What the code gets from outside is an argument: the answers of the session,
-- the readings of the clock, the results of callbacks and of the CBOR library, and the hash, the
-- cipher, the elliptic curve and the random bytes of the DTLS client. The stream decoder reads
-- its frames with the parser of Frame, the poll scheduler writes its answers through apply_rep of
-- the state cache, and CoAP over a stream shares the option format of coap.py.
--
-- Loops: the option loops of both parsers take the length of the bytes as fuel, and each round
-- consumes at least one byte. The loop of split_dtls takes the length of its buffer, and each
-- round consumes a record of at least 13 bytes. The loop of the stream decoder takes the length
-- of the chunk: each round consumes at least one byte of it, as the buffer holds no whole frame
-- before it. The loop of fragment_pdu takes the length of the PDU, and each round consumes at
-- least five bytes, as a frame has more than six. The loop of _post_blockwise takes the length of
-- the body, and each round sends at least one byte. The loop of _blockwise_get_once is recursion
-- on the answers that come before the deadline. The loop of _prf takes the number of bytes asked
-- for, and each round adds a digest, which is not empty. The loop of _handle_handshake_fragment
-- takes one more than the length of the payload, and each round consumes at least twelve bytes;
-- that of _deliver_ready one more than the messages that are ready, and each round takes one of
-- them. Every other loop is structural recursion.
--
-- Not modelled: sockets, OpenSSL, threads and locks, logging, HTTP, CBOR and the appliance tables
-- of mqtt_demo; type checks of arguments, as the models are typed; of dtls_session.py all but the
-- functions above (the exchanges with their deadlines, subscriptions and the connection); and the
-- other protocol modules (the DTLS probe, endpoints, discovery).
mod Prelude
pub mod Errors
pub mod Coap
pub mod CoapTcp
pub mod Ble
pub mod DtlsPsk
pub mod Session
pub mod Ocf
