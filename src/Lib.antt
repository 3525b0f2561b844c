-- ===== src/Lib.antt =====
-- A model of td365, a client library for the TD365 trading service. It speaks a JSON protocol over a
-- web socket (src/ws_client.cpp) and over HTTP (src/rest_api.cpp), reads prices from lines of text
-- (src/parsing.cpp) and passes structures on (include/td365/types.h, src/types.cpp).
--
-- Types      include/td365/types.h: a record for each struct, a data type for each enumeration. A
--            `double` is a parameter `D`; a `std::string` is a list of bytes; times and durations
--            count nanoseconds, or seconds in a candle.
-- Codec      src/types.cpp: `to_json` and `from_json` of each struct, one file for each.
-- Json       nlohmann::json, as a record of its operations and of the behaviour that the code relies
--            on. An operation that throws gives `err`; an access that is undefined gives `err undefined`.
-- Text       std::views::split, from_chars of integers, and decimal output.
-- Parsing    src/parsing.cpp, and the text form of a tick in src/types.cpp. `TdTick` is `parse_td_tick`,
--            `TickLine` is `operator<<` and `tick::parse`, `CandleLine` is `parse_candle`, and
--            `Iso8601` is `parse_iso8601_sv`, which nothing calls. `FloatLib` stands for the text form
--            of doubles.
-- Errors     include/td365/error.h: `Codes` is the enumeration with its category and messages,
--            `Throwing` the exception. Nothing calls it; the code throws through `verify`
--            (include/td365/verify.h), which stands in Base/Outcome.
-- Utils      `Jwt` is `extract_jwt_payload` of src/utils.cpp, which nothing calls, and `Output` what
--            src/utils.cpp prints.
-- Ws         src/ws.cpp, over the streams of Boost in `Streams`: `Socket` is the class, `Pointers` the
--            proof about its two pointers.
-- WsClient   src/ws_client.cpp. `State` is the object with the requests written to its socket;
--            `Subscriptions`, `Messages`, `Payloads`, `Connect` and `Loop` are its methods. An `Action`
--            takes the state and gives a value or an exception, and the state in either case. Which
--            writes fail is up to an oracle; what the socket and the clocks give is a script of turns.
--            The proofs stand in `Keeps` (an invariant kept by actions), `Sync` (the subscriptions that
--            the server knows against those of the client), `Protocol`, `Prices`,
--            `Deadline` and `Delivery`.
-- HttpClient src/http_client.cpp, with get_http_body and td_resolve of src/utils.cpp: `Requests`
--            builds the request, `Debug` is the debug output, which src/ws.cpp has too, `Client` is the object and its methods, `Interface` what the code
--            above sees of it, and `Service` the model as an instance of that. `Boost` holds the parts
--            of Boost that are called, and the network, as records of operations; a socket, the clock
--            and the files belong to a world that every call takes and gives back.
-- RestApi    src/rest_api.cpp: `Urls` is `fix_url`, `Pages` the searches in the page behind the login,
--            `Client` the loop of `open_client`, `Calls` and `Trading` the methods, and `Bodies` what
--            they send and read. The proofs stand in `Redirection`, `Connecting`, `Placing`
--            and `Backfill`.
-- Authenticator
--            src/authenticator.cpp: `Token` is `auth_token`, `Accounts` the hosts and the choice of an
--            account, `Login` the requests and `authenticate`.
-- CookieJar  src/cookiejar.cpp: `Headers` reads one `Set-Cookie` header, `Jar` is the object, `File` the
--            file that it is kept in, and `Abstract` the map that it stands for. The order in which an
--            unordered map is walked and the reader of dates are parameters.
-- Td365      src/td365.cpp: `State` is the object, `Connecting` is `connect`, over HttpClient, RestApi,
--            Authenticator and WsClient, and `Wait` is `wait`, over rounds in which the clock and the
--            script of the read are given and the session is refreshed by a call of rest_api. `Methods`
--            hand their arguments on; the body of `trade` stands in RestApi/Trading as `place_trade`.
--            The proofs stand in `Waiting`, `Noting`, `Session`, `Ending` and `Timeouts`.
-- Strategy   examples/trade_test.cpp, a program over td365: `Candles` is `candle_agg`, with its loops in
--            `Aggregation`, `Signals` is `signals`, and `Trader` is `strategy`. The proofs stand in
--            `Aggregation`, `Alerts`, `Filling`, `Keeping` and `Running`. The system clock and what each wait meets
--            are given.
-- Tests      concrete libraries, a network and concrete inputs, to which the theorems are applied.
--
-- Integers are unbounded, with `IsInt32` and `IsInt64` for the range of a C++ type; a signed operation
-- that overflows is `err undefined`. The loop of `read_and_process_message` recurs on the script; a
-- script that ends while the call waits gives `waiting`, which is no result of the code.
-- `grouping_map` is an unordered map, so that the order in which it is walked is a parameter.
--
-- `fix_url` runs on fuel, the length of the text, and each round uses up a byte at least. The loop of
-- `open_client` recurs on the rounds that are left, five at first.
--
-- The loop of `extract_jwt_payload` that pads runs on fuel; three rounds reach a multiple of four.
--
-- The loop of the demonstration program recurs on a list of waits; it is `running` where the list ends
-- first.
--
-- What the server of the web socket serves is what the requests written to the current socket come to;
-- a server that refuses a request, or drops what it serves when a connection ends, is not modelled.
--
-- Not modelled: the settings of the TLS context and the text of the clock in src/utils.cpp, which are
-- calls of OpenSSL and Boost; the limit on the size of a body; the texts of exceptions but those of
-- include/td365/error.h; logging but the debug output; src/base64.hpp, which is a third-party library;
-- src/charconv_compat.h, which names one. The rest of the headers declares what the files above define.
pub mod Base
pub mod Text
pub mod HttpClient
pub mod Json
pub mod Types
pub mod Errors
pub mod Codec
pub mod Parsing
pub mod Utils
pub mod Ws
pub mod WsClient
pub mod RestApi
pub mod Authenticator
pub mod CookieJar
pub mod Td365
pub mod Strategy
pub mod Tests
