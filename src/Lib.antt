-- ===== src/Lib.antt =====
-- uDaraChat: the WebSocket chat server of a game, its group container and its message formats.
--
-- The server (uDaraChatServer.cpp) owns one `GroupContainer` and a map from character names to
-- sockets. A socket logs in with a `connect:` text frame, which JwtAuth.h verifies; a text frame of
-- a socket that has logged in is parsed by ChatLibrary.cpp, gets the authenticated name as its
-- sender, and is published, answered from AdminQueries.h, or handed to the group container. A
-- binary frame carries a character's position and health, and is read by ChatLibrary.cpp.
--
-- Files and the code they are about, with paths from the repository's root:
--   Base     Boolean tests, lists, byte texts, integers and decimals over the native numbers. A
--            `std::string` is a list of byte values. Base/Decimal: `std::to_string`, `std::stoi`;
--            Base/Numerals: their round trip.
--   Group    GroupContainer.h and GroupContainer.cpp. Types: the data and error codes; Info:
--            `GetGroupInfo` and the other queries; Container: `GroupStartGroup`, `GroupJoin`,
--            `GroupInvite`, `GroupKickMember`, `GroupDisband`, `AssignLeader`, `AliveMsg`,
--            `SetMemberOnline`, `GetGroupTopic`; Invites: `AddInvite`, `RemoveInvite`,
--            `RemoveOldInvites`, `CheckHasInvited`; NewId: `GetNewGroupId`; Wire:
--            `SerializeToSend`, `Deserialize`. Proofs: Count, Leader, Query, Answers, Lookup and
--            Names carry the lemmas for Invariant, Steps, Reach, Joining, Leaving, Inviting,
--            Switching; Presence: the online flags; Prefixed: the prefix of the ids;
--            Crowds: the numbers of members; Rooms: the group of each name and the number of its
--            members, as operations may change them; Spec: the container beside the rooms;
--            WireRoundTrip. SelfTest: `RunTests`, with SelfTestPasses.
--   Chat     ChatLibrary.h and ChatLibrary.cpp. CmdType: `EChatCmdType`; Message: `FDaraChatMsg`,
--            `TryParseMessage`; Raw: `FDaraRawChatMsg`. Proofs: Find, Split, RoundTrip,
--            RawSafety, RawRefused. NewId: the second
--            `GetNewGroupId`.
--   Login    JwtAuth.h. Token: what is used of jwt-cpp; Fields and Verify: `VerifyLogin`. Proofs:
--            Frame, Soundness, Roles.
--   Admin    AdminQueries.h. Query: `AnswerAdminQuery`. Proofs: Access.
--   Server   uDaraChatServer.cpp. State: sockets, sessions and effects; Topics: the topic slots and
--            subscriptions; Groups: the group messages; Snapshot: `CollectAdminSnapshot`; Events:
--            the `open`, `message` and `close` handlers. Proofs: Slots, Gate, Acts, Conduct, Speech,
--            Integrity, Sessions, Delivery; Keeps, Membership and GroupIds: the group ids of
--            the sockets beside the container; Roster, Grows, Consistent, Closing, Entering,
--            Entered and History: every run of the server; Authenticated: the frame that logged a
--            socket in; GroupTalk: its group
--            messages; Accepting: an invitation that is accepted;
--            Hearing: what a socket is subscribed to, read from the effects; Guarded, Subscribing,
--            Opening, GroupPrivacy, FramePrivacy, LoginPrivacy and Privacy: the topics that are
--            kept for one name, zone or group, step by step; Listening: the subscriptions
--            that a login makes;
--            Tally, Channels and Counts: what the administrator's snapshot counts;
--            Reached: the container of a run is one of the histories of Group/Reach;
--            Attendance and Presence: the online flags of the members beside the sessions.
--            Startup: what `main` decides; Address: `ConvertMappedIPv6ToIPv4`, with
--            AddressRoundTrip.
--   Bot      Chatter.h, Chatter.cpp and uDaraChatBot.cpp. Chatter: what the bot says; Reply:
--            `onWSMsg`, `ChatReply`; Control: `ControlCommand`; Loop: `ChatLoop`; Options: `main`
--            and the frames that `run` sends first. Proofs: Frames: how the server reads what the
--            bot says; Conversation: two bots; Startup: the options and the login;
--            Commands: how the server reads a command; Cycle: the rounds.
--   Client   client/uDaraClient.cc. Talk: what it sends; Proofs: Rounds: the rounds; Refused: its login
--            at the server.
--   Tests    Concrete runs.
--
-- An operation of the container takes the container and returns the one it leaves, with its answer.
-- A handler takes the world (the data of every socket, the sessions, the container, and the effects
-- so far) and returns the next one; what it asks of uWebSockets is appended to the effects. The
-- clock and the draws of the random engine are arguments.
--
-- Bounds: all loops of the source run over a finite list or text and are structural recursions;
-- `open` counts down from 32; `std::to_string` runs on fuel one above its number, which is enough
-- since a division by ten makes a positive number smaller. `int` counts members only, far below its
-- range, and is an integer without wrap-around; lengths are below 16 MB, so that sums of `size_t`
-- do not wrap.
--
-- Not part of the model: jwt-cpp, picojson, uWebSockets, SHA-1 and the random engine, which are not
-- this repository's code and are parameters (JwtLibrary, JsonLibrary, Env, Now, Machine); the log;
-- the bot's socket, threads and waits; BotWebsocket.h, main.cpp, client/uDaraListener.cc and
-- tools/. The dump functions of the container only print. A `float` is kept as its four bytes.
pub mod Base
pub mod Chat
pub mod Client
pub mod Group
pub mod Admin
pub mod Login
pub mod Server
pub mod Bot
pub mod Tests
