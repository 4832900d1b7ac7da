-- ===== src/Lib.antt =====
-- Kong's checker of package manifests, scripts/explain_manifest: it unpacks a package or an image,
-- describes every file in it, writes the descriptions as a manifest, and runs a suite of
-- assertions on the files.
--
-- The parts, in the order in which they build on each other:
--
-- 1. explain.py: one object for each file. Explain/Info.antt has the objects (FileInfo,
--    ElfFileInfo, NginxInfo) with their attributes as fields, Explain/Value.antt the values of
--    attributes, and Explain/Attributes.antt __getattr__ over an explicit __dict__, with the lazy
--    attributes and their cache. Explain/Load.antt has the constructors of FileInfo and
--    ElfFileInfo, over an Entry: what the file system, lief and pyelftools say of a path.
--    Explain/Nginx.antt has that of NginxInfo; its three regular expressions are functions by
--    clauses. Explain/Lines.antt is explain(): the entries that a manifest shows of a file.
-- 2. expect.py: ExpectChain. Expect/State.antt has its state, with what it prints as a list of
--    messages, and the methods that only print; Expect/Operators.antt what the verbs compute on a
--    value (_equal, _match, _less_than, _greater_than, _contain, _contain_match);
--    Expect/Compare.antt _compare and _exist; Expect/Chain.antt the public methods and __getattr__,
--    which turns names into attributes and verbs; Expect/Script.antt run, compare_manifest and the
--    handler at exit. A test function is the list of its calls on the chain (Step), since what it
--    calls depends on its arguments only. Regex.antt and Regex/Pattern.antt are re.search, for the
--    syntax that the patterns of the suites use; Prelude/Decimals.antt has the digits of `\d`.
-- 3. suites.py: Suites/Common.antt, Suites/Libc.antt and Suites/Docker.antt, one list of calls for
--    each test function; Suites/Requirements.antt is a helper that none of them calls.
-- 4. config.py: Config/Transform.antt is transform, Config/Targets/Table.antt the table of suites,
--    and Config/Targets.antt the loop that adds the suites for arm64.
-- 5. main.py: Main/Walk.antt is walk_files, Main/Manifest.antt write_manifest,
--    Main/Suggestion.antt what is said of a suite that is unknown, Main/Output.antt what
--    `--output -` prints, and Main.antt the rest, from the parsed arguments to the exit status.
--
-- Beside this program, the Python scripts of two plugins:
--
-- 6. kong/plugins/api-version/sdk, the scripts that talk to a key service. Sdk/Params.antt is
--    params_sort_str and prepare_params of decrypt.py, which sign the parameters of a request, and
--    Sdk/Decrypt.antt the rest of that script, the request and what is printed of the response.
--    Sdk/Script.antt says what the scripts do (requests of the service, printed lines, how they
--    end) as steps over the list of what happened, and Sdk/Cli.antt has one definition for each of
--    the ehsm_CLI scripts and encrypt.py.
-- 7. kong/plugins/attest/sdk: Attest/Base64.antt and Attest/Base64/Json.antt are json_to_base64 of
--    mybase64.py, and Attest/Server.antt is the route of pyserver.py.
--
-- What these call of the standard library is modelled too: Utf8/Encoding.antt and
-- Utf8/Decoding.antt are str.encode and bytes.decode, the latter as a state machine over the bytes
-- with both ways to treat malformed ones; Url/Quoting.antt is urlencode and unquote_plus with what
-- they call; Json/Dumps.antt is json.dumps. Json/Reader.antt, with
-- Json/Strings.antt for string literals, is no part of the program but a reader of JSON, which what
-- is written is held against.
--
-- How they meet: main walks over the files (Entry) and makes objects of them (Info), transforms
-- them, explains them into the manifest, and hands both to verify, which is compare_manifest and
-- then run. Expect/Assertion.antt says what a suite asks for without any chain: flat assertions,
-- each of which looks at the package by itself. The chain's state is what makes the two differ in
-- form, and Expect/Assertion/ relates them.
--
-- Numbers are natural numbers of any size: the program computes with counts, identifiers and
-- modes, and subtracts only to pad a key. Texts are lists of code points. An exception is a
-- value (Result); one that is raised ends the process with status 1, so the state behind it is
-- not kept. Every loop is a recursion over a list; only the digits of a number are written on
-- fuel, one more than the number, and the reader of JSON takes the length of its text as fuel.
--
-- Parameters: Env.antt names what the program calls and does not contain: globmatch, looseversion,
-- re.search on patterns with more syntax, the ratios of difflib and the diff command. World in
-- Main.antt stands for the user id, the file system and the commands that unpack. Service in
-- Sdk/Script.antt stands for the files and the key service; HMAC, the time, repr on lists and
-- dictionaries, requests.post and json.loads are arguments where they are used. Laws of these are
-- asked only where a theorem names them: that versions are ordered (IsVersioned), that an account
-- is accepted (IsAccount) and that its service binds additional data (IsSealing).
--
-- Not modelled: argparse; the text of printed lines, their time, and the place in the suite that
-- leads a failure (_ctx_info); errors on printing; the title, which is printed nowhere; braces in a
-- failure's template; the names of files that the commands of gather_files go wrong on; errors on
-- writing the manifest; the TypeError of looseversion where a number of one version meets letters
-- of the other, so that any two versions can be compared here; the two private dictionaries of a
-- file as attributes; floating-point numbers in JSON; the decorator lazy_evaluate_cache, which nothing
-- uses. Of the other Python code, the charts of the performance tests (calls of pandas and
-- matplotlib) and the fixture of the AWS Lambda plugin (one constant) are not modelled.
pub mod Prelude
pub mod Result
pub mod Regex
pub mod Env
pub mod Explain
pub mod Expect
pub mod Suites
pub mod Config
pub mod Main
pub mod Utf8
pub mod Url
pub mod Json
pub mod Attest
pub mod Sdk
pub mod Tests
