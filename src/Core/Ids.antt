-- ===== src/Core/Ids.antt =====
-- crates/core/src/ids.rs: the identifiers. Each is a transparent wrapper of a `String` there, made by
-- `new` and read by `as_str`, and is that text here.
use alertthread.Base.{String, List}

abbrev pub Fingerprint : Type 0
Fingerprint = String

abbrev pub ChannelId : Type 0
ChannelId = String

abbrev pub MessageTs : Type 0
MessageTs = String

abbrev pub GroupKey : Type 0
GroupKey = String

abbrev pub ThreadTs : Type 0
ThreadTs = String

-- `LabelMap` of webhook.rs: the entries in the order of their keys.
abbrev pub LabelMap : Type 0
LabelMap = List (String × String)
