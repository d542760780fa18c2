-- ===== src/Lib.antt =====
-- Linux_Advance: servers and clients that teach network programming. The parts that are modelled, each
-- with the paths of its code from the repository's root:
--
-- The reactor, day_02/demo_01/reactor: a calculator server over edge-triggered epoll. Protocol.hpp frames
-- payloads by their length and serialises requests and responses (Protocol/Frame, Protocol/Messages for
-- the build with SELF, Protocol/Json for the one with JsonCpp) and makes up requests (Protocol/Factory);
-- Calculate.hpp computes (Calculate); PackageParse.hpp takes whole frames off the input buffer of a
-- connection and appends the answers to its output buffer (PackageParse, and `parse` of Reactor/Io);
-- Connection.hpp, Epoller.hpp and Reactor.hpp keep the map of connections and the interest list
-- (Reactor/Connection, Reactor/Core); IOService.hpp and Listener.hpp read, write and accept (Reactor/Io);
-- LoopOnce calls them for each ready descriptor (Reactor/Dispatch). Functions keep their names in snake
-- case: HandlerSend is `handler_send`.
--
-- The web server, day_01/demo_02/cookie_session: Http.hpp parses requests (Http/Request), builds responses
-- (Http/Response), serves files, handlers and sessions (Http/Service) and has cookies to try out
-- (Http/Cookies); Session.hpp is Http/Session, the handler of Main.cc is Http/Login, and TcpServer.hpp, which
-- runs a thread for each client, is Http/Server. The server without sessions that it grew from,
-- day_01/demo_02/http, has requests and a service of its own (PlainHttp/Request, PlainHttp/Service) and shares
-- the rest word by word; PlainHttp/Extension compares the two.
--
-- The echo servers over select, poll and epoll, day_02/demo_01: Multiplex/Select, Multiplex/Poll and
-- Multiplex/Epoll, with what they share in Multiplex/Echo, Multiplex/Slots and Multiplex/Held.
--
-- The servers of day_01/demo_01: the pool of threads of tcp_server_echo (Threadpool; GetInstance is
-- Threadpool/Instance, Thread.hpp is Threadpool/Threads) and the echo server that hands its clients to the
-- pool (EchoServer), with the one over UDP (EchoServer/Datagrams); the chat room, whose messages are tasks of
-- the pool (Chat); the dictionary and its server (Dict, DictServer); the commands and their servers over TCP
-- and UDP (Command, CommandServer); the calculator server, which shares the protocol of the reactor
-- (CalServer), with a thread for each client (CalServer/Threads), and its client, which reconnects
-- (TcpClient). The loops of the other clients are in Clients. The server that executes commands also has a
-- thread for each client (CommandServer/Threads). The function of day_01/demo_02/daemon that turns a process
-- into a daemon is Daemon. What the processes do before their loops, the arguments of main, InitServer and
-- the connection of a client, is Startup.
--
-- What they all use: Socket.hpp (Socket) and Log.hpp (Log, and Log/Sinks for where messages go), both as the
-- reactor has them.
--
-- State is passed on explicitly. Base/Monad has the result of a step: a value, or a fault, which tells a
-- C++ exception from undefined behaviour, from a system call that the environment has no answer for
-- (`blocked`), from a loop whose fuel ran out (`no_fuel`), and from a call of exit (`exited`). What the kernel answers is a script, a list
-- with one entry for a call, so a loop over system calls is a recursion on its script. The pool of threads
-- is a function of a list of events, one for each critical section, so every interleaving is one list; a
-- caller of GetInstance takes a step for each access to what the callers share.
-- Bytes are numbers, a text is a list of them, `c_str` cuts it at the first zero byte; an int is an integer
-- with a test that it fits 32 bits, a size_t is taken modulo 2^64.
--
-- Fuel: the loop of Parse gets one more than the length of the input buffer, which is enough for every
-- sequence of whole frames, since a frame is longer than one byte; the loop of DeSerialize gets one more
-- than the length of the text; ReConnect gets its five attempts.
--
-- JsonCpp is a parameter, the record Json of Protocol/Json: what is read back from what it wrote is a
-- hypothesis of the theorems that need it, and Examples/ToyJson is a codec for which it holds. The files
-- of the web server are a function from paths to what they lead to, popen is a function, and rand and time are
-- arguments.
--
-- What epoll_ctl returns is not looked at in the sources, so the servers over epoll keep a log of these
-- calls; what the log makes of the interest list, where some of them fail, is a function of the log and of a
-- test that says which ones work.
--
-- Not modelled: what is only printed, and the calls of LOG; the versions of the echo server that are
-- commented out; threads of the web server that run at the same time. Many files are in several
-- directories: one copy is modelled. Examples holds the theorems at concrete inputs.
pub mod Base
pub mod Protocol
pub mod Calculate
pub mod PackageParse
pub mod Reactor
pub mod Socket
pub mod Log
pub mod Http
pub mod PlainHttp
pub mod EchoServer
pub mod Clients
pub mod Multiplex
pub mod Threadpool
pub mod Command
pub mod CommandServer
pub mod Chat
pub mod Dict
pub mod DictServer
pub mod TcpClient
pub mod CalServer
pub mod Daemon
pub mod Startup
mod Examples
