-- ===== src/Lib.antt =====
-- wotpy: a Web of Things runtime. This library models the core of wotpy/wot (Things, ExposedThings and
-- the servient), consumed Things and the dictionaries of the Scripting API and, of wotpy/protocols, the
-- connection counter, the WebSockets messages, handler and client, the HTTP and CoAP servers and clients,
-- and the MQTT and Zenoh servers and clients with their handlers and runners.
--
-- How the parts interact. A `Thing` holds its interactions, each with its forms. An `ExposedThing` wraps a
-- Thing with the values of its properties, the handlers of the application and the stream of emitted
-- events. A `Servient` holds ExposedThings in an `ExposedThingSet`, and servers that each hold a set of
-- their own; enabling a Thing puts it into the set of every server and rebuilds the forms that the servers
-- generate. A WebSockets connection turns JSON requests into calls of one ExposedThing; a request of HTTP,
-- or a message of a broker, is turned into a call of one ExposedThing of the server. A broker's handler
-- shares a queue with its runner, whose loops deliver messages to it and publish those of the queue.
-- A `ConsumedThing` calls the client that the servient selects, which picks a form of the Thing
-- Description and sends its request: the clients of MQTT, Zenoh and WebSockets share their connections
-- between requests and wait for a message with the answer, those of HTTP and CoAP get it from the library.
--
-- Which file models what:
--   Prelude, Outcome, Dict, Sets, Json   Python's tests, exceptions as values, methods that change an
--                                        object and may raise, dict, set, and JSON documents
--   Names                                utils/utils.py (to_camel, to_snake), is_valid_safe_name of
--                                        wot/validation.py
--   Thing, Thing/Defs                    wotpy/wot/thing.py, interaction.py and form.py: `Thing`,
--                                        `InteractionPattern` (`Interaction` here), `Form`
--   ThingSet                             wotpy/wot/exposed/thing_set.py
--   Exposed, Exposed/Defs and Changes    wotpy/wot/exposed/thing.py, interaction_map.py, wot/events.py
--   Servient, Servient/Forms and Defs    wotpy/wot/servient.py and what it calls of protocols/server.py;
--   Servient/Select, Servient/Urls       `_default_select_client`, `get_thing_base_url` of servient.py
--   Refs                                 wotpy/protocols/refs.py
--   Ws, Ws/Messages and Handler          wotpy/protocols/ws/messages.py, schemas.py, enums.py, handler.py
--   Exposed/Objects                      the objects of wotpy/wot/exposed/interaction_map.py
--   Broker, Broker/Topics, Defs, Answers wotpy/protocols/mqtt/handlers, and the same of Zenoh: topics, and
--                                        what a handler does with a message
--   Broker/Subs                          wotpy/protocols/mqtt/handlers/subs.py
--   Broker/Runner                        wotpy/protocols/mqtt/runner.py: the loops, one round as one step
--   Mqtt, Zenoh                          server.py of the two, and their instances of the handlers
--   Mqtt/Client, Mqtt/Ops                wotpy/protocols/mqtt/client.py: connections, topics and messages,
--                                        and the operations on them in any order
--   Mqtt/Calls                           its invoke_action, write_property and read_property, in three parts
--   Ws/Client, Ws/Waiting, Ws/Connections  wotpy/protocols/ws/client.py: connections, requests and answers, and
--                                        their steps in any order
--   Ws/Streaming                         its subscriptions: `_build_subscribe`, `_parse_emitted_item`
--   Zenoh/Client, Zenoh/Linked           wotpy/protocols/zenoh/client.py: sessions, subscriptions and messages,
--                                        and the operations on them in any order
--   Zenoh/Calls                          its invoke_action, write_property and read_property, in three parts
--   Http/Client                          wotpy/protocols/http/client.py: the requests for properties and actions
--   Coap/Client, Coap/Resources          client.py and resources of wotpy/protocols/coap, for the same
--   Dictionaries, Dictionaries/Classes   wotpy/wot/dictionaries: base.py, and the classes by their `Meta`
--   Dictionaries/Forms                   the `forms` of dictionaries/interaction.py
--   Consumed, Consumed/Bindings          wotpy/wot/consumed, over the clients of HTTP
--   Http/Auth                            wotpy/protocols/http/authenticator.py and credential.py
--   Http/Handlers, Http/Routes           wotpy/protocols/http/handlers; routes and forms of server.py
--   Coap                                 credential.py and authenticator.py of wotpy/protocols/coap
--   Clients                              how a client picks a form: wotpy/protocols/utils.py, the picks of
--                                        client.py of HTTP, CoAP and MQTT, resolve_uri, get_forms of wot/td.py
--   Tests                                concrete inputs, with the theorems applied to them
-- The operations keep the names of the methods, without a leading underscore; a method that changes its
-- object takes the state last and returns its outcome with the new state.
--
-- State and identity. Objects that the source compares by identity carry a number, `oid`; the table of
-- property values and handlers is keyed by it, as the source keys it by the object. The forms of a
-- servient's Things are changed through a heap from identities to Things. A coroutine runs to its end in
-- one step. There is no fuel: every loop of the modelled code is over a finite list. A handler of the
-- application (`Platform.call`) may write properties and emit events of its ExposedThing, whose values and
-- events it leaves with the result; it adds no interactions and sets no handlers. `to_json_obj` raises, or
-- returns an object that `json.dumps` takes or refuses (`Encodable`).
--
-- What is a parameter: `slugify` (the library that makes URL names), the hash of a form's ID, the
-- values, handlers and TD validation of an application (`Platform`), the forms and base URLs that
-- a binding builds, whether a server's start and stop raise, the JSON form of values,
-- `json.loads`, and the supply of subscription IDs, base64, the answer of an OAuth2 end point, the
-- parts of a URL, Python's `==` and truth of documents, what the HTTP and CoAP libraries answer to a
-- request and what they change outside, and what a broker's client library returns: a message, a success or an
-- exception. Which loop of a runner goes on next is the schedule's choice. Python's `str.title`,
-- `isupper` and `lower` are modelled on ASCII letters.
--
-- What is not modelled: observations over CoAP, the observables of the clients of HTTP, CoAP, MQTT and
-- Zenoh, network servers, the JSON schema of a Thing Description, what `to_dict` builds of dictionaries
-- inside dictionaries (so of forms), the credentials that ask an end point for a token, codecs and discovery. Of a
-- subscription over HTTP the future is modelled, but not the request that waits for it.
pub mod Prelude
pub mod Outcome
pub mod Dict
pub mod Names
pub mod Thing
pub mod ThingSet
pub mod Exposed
pub mod Sets
pub mod Servient
pub mod Refs
pub mod Json
pub mod Ws
pub mod Broker
pub mod Mqtt
pub mod Zenoh
pub mod Http
pub mod Coap
pub mod Clients
pub mod Dictionaries
pub mod Consumed
pub mod Tests
