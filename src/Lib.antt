-- ===== src/Lib.antt =====
-- libmio, the C library for event nodes over XMPP in src/mio_*.c.
--
-- A call sends a stanza and waits for the answer. Its request stands in a table under the id of the
-- stanza, a handler reads the answer with callbacks of an XML parser into a response, and signals the
-- request. Publications that come unasked go through a queue. On top of this stand the documents that
-- nodes publish: references, meta data, locations, schedules, values of transducers.
--
--   Base, Run       lists, options, texts; objects behind pointers, faults and blocked calls
--   Decimal         numbers as text: "%u", atoi
--   Xml             libstrophe's stanzas and expat's callbacks (parameters); the scan of attributes
--   Response        src/mio_packet.h, the responses of src/mio_connection.h, src/mio_error.c
--   Handlers        the reader of src/mio_handlers.c, with the end tag of src/mio_transducer.c:
--                   _mio_xml_data_update_start_element, mio_xml_parse; the walk over a tree
--   Connection      src/mio_connection.c: the table of requests and the queue of publications;
--                   Connection.Reconnect is mio_handler_conn_generic of src/mio_handlers.c
--   Send            mio_send_blocking and mio_send_nonblocking of src/mio_pubsub.c
--   Answer          what the handlers of answers share, with mio_handler_generic_id of
--                   src/mio_handlers.c; mio_handler_error of src/mio_error.c
--   Parser          mio_parse of src/mio_handlers.c, which makes a stanza of a text
--   Pubsub          the stanzas of requests of src/mio_pubsub.c; Pubsub.Requests is about the requests
--                   of Node and Affiliations and the queries for items together
--   Node            the requests of src/mio_node.c; Node.Items is the queries for items, Node.Devices
--                   mio_item_device_add, Node.Types the answer on the type of a node
--   Affiliations    src/mio_affiliations.c: subscriptions and affiliations
--   Collection      src/mio_collection.c: the children and parents of a node
--   Geoloc          src/mio_geolocation.c
--   Meta            src/mio_meta.c: merging and removing; the item of meta data and their query, whose
--                   callbacks keep one pointer for objects of three types; Meta.Publish is the
--                   functions that query, change and publish them
--   Reference       src/mio_reference.c; Reference.Children is adding and removing a child,
--                   Reference.Overwrite _mio_reference_meta_type_overwrite_publish
--   Schedule        src/mio_schedule.c: events, their item, their query, their publication
--   Receive         src/mio_pubsub.c: listening for publications and receiving them, with mio_handler_add
--                   and mio_handler_generic of src/mio_handlers.c
--   Transducer      src/mio_transducer.c: values, their item, their publication; the callback
--                   mio_XMLstart_pubsub_data_receive of src/mio_pubsub.c
--   Examples        instances of the theorems
--
-- A `NULL` is `none`; a list linked by `next` is a `List`. A definition returns `none`, or `fault`,
-- where the C program has undefined behaviour, and `blocked` for a call that never returns. Where
-- threads or the server act, what they do is an argument of the definition.
--
-- uthash, libstrophe, expat, pthreads and the C library's conversions of `double` are parameters.
-- uthash and libstrophe are records of operations with the laws that the code relies on, and there is
-- an instance of each. The digits of a number run on fuel, one unit more than the number; the clearing
-- of the queue takes one unit more than its entries; the rounds of a blocking request are the source's
-- three, and the waits for a connection or for a publication are a list.
--
-- Not modelled: printing, logging, and freeing at the end of a call; mio_collection_child_remove, which
-- passes NULL as the response of its queries; the connecting of src/mio_user.c, with the event loop and
-- its threads; timed handlers; the command line tools.
pub mod Base
pub mod Decimal
pub mod Run
pub mod Xml
pub mod Response
pub mod Handlers
pub mod Geoloc
pub mod Meta
pub mod Reference
pub mod Schedule
pub mod Answer
pub mod Pubsub
pub mod Node
pub mod Parser
pub mod Collection
pub mod Affiliations
pub mod Transducer
pub mod Receive
pub mod Connection
pub mod Send
pub mod Examples
