-- ===== src/Lib.antt =====
-- A model of the PKCS#11 module of Infisical. The program is a shared library: a host application
-- calls the exported functions of main.go, these call the backend of backend.go, and the backend
-- keeps sessions (slots.go) and caches (cache.go) and signs through Infisical's API (client.go),
-- under a configuration (config.go) and with a record of what is being signed (signing_context.go).
--
-- Which file models which part, each with children for the definitions and for what is proved:
--   Base       tests, lists, byte strings, maps, integers and bits that all parts share
--   Constants  the values of PKCS#11 (pkcs11_types.h)
--   Errors     errors.go, and mapErrorToRV of main.go; Outcome: what a function leaves
--   Slots      slots.go: object handles, sessions and their manager
--   Cache      cache.go: the lists of signers, the certificates and the public keys
--   Mechanism  mechanism.go: mechanisms, algorithms and DigestInfo
--   Config     config.go: the configuration, and ValidateScopeExclusions of signing_context.go
--   Scope      signing_context.go: the metadata of a sign call, the scope of a request, (Command)
--              the command line without its secrets, and (Capture) the context captured once
--   Client     client.go: requests and answers of the API
--   Backend    backend.go: Startup (Initialize, Finalize), Auth (tokens and the retry), Signers, Info
--              (slots and tokens), Login (sessions), Keys (certificates and keys), Find (searches),
--              Attributes (GetAttributeValue), Signing
--   Main       main.go: Reply (the start and end of each exported function), Buffers (what is
--              written to the memory of the caller), Startup, Slots, Sessions, Search, Attributes
--              and Signing (the exported functions), Unsupported, and Api (all of them as one type
--              of calls)
--   Process    signing_context_linux.go, _darwin.go, _windows.go, _other.go: the arguments of the
--              process
--   Tests      a small world, tests, and the theorems at concrete inputs
--
-- A method of the backend is a function from the state to an outcome and the next state; what it
-- wrote before an error stays written. A Go string or byte slice is a list of bytes, a Go map an
-- association list, a 64-bit int an integer with the wrap-around written out where it can happen.
-- A session that the code changes through its pointer is written back under its handle.
--
-- What the code takes from other packages is a parameter (the records Library, Host, Asn1, Crypto,
-- Service and System): HTTP and Infisical's SDK, JSON, X.509, ASN.1, PEM, Base64, hashes, url.Parse,
-- net.ParseIP, time.ParseDuration, the clock, files, the environment and the operating system. The
-- service reads and changes an outside world, of which nothing is assumed. Loops recur on lists, the
-- reading of the arguments on macOS on their count; only the printing of a number has fuel, one
-- round more than the number, and a number has fewer digits than that.
--
-- What the parameters give stays the same from call to call: the files, the environment, the name and
-- the process of the host, and what the code reads of them. The clock is read from the outside world,
-- which moves only when the service is called (a request or a login), so that no time passes between
-- two such calls, and a cached entry does not expire before the next of them.
--
-- Not modelled: the log; the locks (each call runs alone); C memory beyond what a function reads or
-- writes of its arguments; lengths of a caller that do not fit into the C int they are converted
-- to; the table of entry points and the packing of C structures on Windows.
pub mod Base
pub mod Constants
pub mod Errors
pub mod Outcome
pub mod Slots
pub mod Config
pub mod Cache
pub mod Mechanism
pub mod Scope
pub mod Client
pub mod Backend
pub mod Main
pub mod Process
mod Tests
