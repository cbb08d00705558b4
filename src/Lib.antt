-- ===== src/Lib.antt =====
-- rmw_zenoh_pico: the ROS 2 middleware layer over zenoh-pico, in C. A process publishes, subscribes, serves
-- and calls services through the `rmw_*` functions; zenoh-pico's threads bring messages in by callbacks.
-- Paths below are from the repository's root; `src/` stands for rmw_zenoh_pico/src/ and `include/` for
-- rmw_zenoh_pico/include/rmw_zenoh_pico/.
--
-- How the parts work together. A callback turns a sample, a query or a reply into a `ReceiveMessageData`
-- (payload, attachment, reference count) and appends it to the queue of a subscription, service or client.
-- It then triggers the data callback and the wait set of that entity. The executor calls `rmw_wait`, which
-- attaches its wait set to every entity, sleeps, detaches and reports what is ready. It then takes messages:
-- a subscription's are popped, read and deleted; a service's move from the request queue to the response
-- queue, where `rmw_send_response` picks them up by their header. Every message carries an attachment with
-- a sequence number, a timestamp and the gid of its sender.
--
-- The files.
--   Prelude: shared names, tests on numbers, lists measured by native numbers, integers.
--   Message: the struct of a received message (include/rmw_zenoh_pico_rosMessage.h,
--     include/zenoh_pico/rmw_zenoh_pico_attach.h).
--   Memory: the heap of those structs and commands over it, with faults as values.
--   MessageList: the queue and the reference count of a message (src/zenoh_pico/zenoh_pico_rosMessage.c,
--     src/zenoh_pico/zenoh_pico_data.c). Chain says which messages a queue in memory holds; Ends is about
--     append and pop, Pickup about pickup, Destroy about the end of a message and of a list, Drain about the
--     loops that empty a queue (src/rmw_service.c, src/rmw_subscription.c).
--   Rmw: return codes, the check of the implementation identifier, the checks at the head of a function.
--   Attachment: src/zenoh_pico/zenoh_pico_attach.c. Serialize: payloads and their header
--     (src/zenoh_pico/zenoh_pico_rosMessage.c).
--   Event: data callbacks, and events, none of which is supported (src/rmw_event.c).
--   Wait: wait sets, conditions and guard conditions (src/rmw_wait.c, src/rmw_guard_condition.c,
--     src/zenoh_pico/zenoh_pico_condition.c). Call holds `rmw_wait` itself; Ready is about its loops, Attach,
--     Check, Attached and Kept about what comes before the sleep, Trigger about what ends it, Detach about
--     what comes after, Deadline about timed waits, Wake about the whole call.
--   Receive: what a callback makes of a sample or a query (src/zenoh_pico/zenoh_pico_rosMessage.c).
--   Take: src/rmw_take.c. Service: requests and responses, and publishing (src/rmw_service.c,
--     src/rmw_client.c, src/zenoh_pico/zenoh_pico_rosMessage.c), with the checks of the handles in Checks
--     and the end of a service's data, its queues included, in Destroy.
--   Handler: the callbacks themselves, and `rmw_take_response` (src/rmw_subscription.c, src/rmw_service.c,
--     src/rmw_client.c). Queued and Query are about a sample and a query that arrive; Delivered, Response and
--     Call about a message, a response and a service call on their whole way.
--   Text: the C strings and the fixed buffers that `snprintf` fills. Entity: the structs of
--     include/zenoh_pico/ that name a node, a topic and an endpoint.
--   Liveliness: the key of an entity's liveliness token, and Conversion: the texts of domains, type names,
--     type hashes and QoS profiles (src/zenoh_pico/zenoh_pico_liveliness.c). TopicKey: the key of a topic
--     (src/zenoh_pico/zenoh_pico_topicInfo.c).
--   Object: the reference counts of nodes, entities, infos and endpoints, over a heap of their own
--     (src/zenoh_pico/zenoh_pico_data.c, zenoh_pico_entity.c, zenoh_pico_nodeInfo.c); Steps, Stages,
--     Freed and Node are about what is let go.
--   Creation: how they are made (src/rmw_node.c, src/rmw_publisher.c, src/rmw_subscription.c,
--     src/rmw_service.c). Checks and Handles are `rmw_create_*` and `rmw_destroy_*` with their checks, Nodes
--     holds `rmw_create_node` and `rmw_destroy_node`; Made, Cycle, Failed, Service, Refused and Lifecycle
--     are about them.
--   Session: the session that all contexts share (src/zenoh_pico/zenoh_pico_session.c). Init: the addresses,
--     the init options and the context (src/rmw_init.c).
--   Wait.Handles: the handles of wait sets and guard conditions (src/rmw_wait.c,
--     src/rmw_guard_condition.c).
--   Fixtures and the modules named Tests: concrete data, and the theorems applied to them.
--
-- Conventions. A pointer is a number and NULL is 0; a struct is a cell of the heap. An access through NULL
-- or to freed memory is the outcome `fault`. Each list function holds the list's mutex throughout, so it is
-- one uninterrupted command. Other threads appear in `rmw_wait` as a list of turns: a turn that signals the
-- condition variable of the wait set ends the wait, and wake-ups without a signal are left out. A timed wait
-- ends after one turn, by a signal or by the clock. Sizes are natural numbers, with the wrap-around of
-- `size_t` and `uint64_t` written out where the code can reach it; `int` counts stay far below 2 ^ 31 and
-- sequence numbers far below 2 ^ 63. The signed words of a `struct timespec` are their bit patterns, and the
-- clock's are below 2 ^ 63. Where a gid is shorter than the array of a request's header, `memcmp` reads past
-- the gid in the source; the model compares what there is, and it does not fit.
--
-- The structs of an endpoint live in a heap apart from the one of messages, and what the allocator gives for
-- each is an argument (`Outcomes`). A text is its bytes before the zero byte; a buffer has its size, and a
-- write behind it is the outcome `none`. RMW_ZENOH_PICO_MAX_LINENESS_LEN is 256, as the build sets it. The
-- transport, which the build chooses, is an argument.
--
-- Fuel. The loops over a linked list get a number of rounds: `recv_msg_list_pickup` and the loops that
-- empty a queue end within one round for each message and one more, which their theorems require.
--
-- Parameters. zenoh-pico's serializer (`ZeSerializer`, with the law that it reads back what it wrote), the
-- CDR callbacks of a message type (`MessageTypeSupport`, with the contract `IsCdr`), and the calls of
-- zenoh-pico that send (`z_query_reply`, `z_get`, `z_publisher_put`), that open a session (`Zenoh`) and that
-- take an entry of its configuration (`zp_config_insert`), rmw's validation of a topic name, and whether
-- rosidl finds a type support.
--
-- Not modelled: the declarations of publishers, subscriptions, queryables and liveliness tokens, which are
-- calls of zenoh-pico, the memory of the rmw handles of nodes and endpoints, gids, logging, and the
-- functions that only report that they are not supported. The vendored hash (include/utilities/xxhash.h)
-- is third-party code.
pub mod Prelude
pub mod Message
pub mod Memory
pub mod MessageList
pub mod Rmw
pub mod Attachment
pub mod Serialize
pub mod Event
pub mod Wait
pub mod Take
pub mod Service
pub mod Receive
pub mod Handler
pub mod Fixtures
pub mod Text
pub mod Entity
pub mod Liveliness
pub mod Conversion
pub mod TopicKey
pub mod Object
pub mod Creation
pub mod Session
pub mod Init
