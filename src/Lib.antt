-- ===== src/Lib.antt =====
-- TuxPLC: programs and libraries that talk to programmable controllers. These parts are modelled.
--
-- Df1 is the serial driver of SLC controllers, tuxsql/TuxDf1/src/df1.c and df1.h.
--   Df1            the constants, TMsg, TBuffer and TThree_Address_Fields
--   Df1.Port       the port, the clock and the global variables as a state; read_byte, write,
--                  sendResponse, is_timeout. The line is the list of what the calls of select will
--                  meet, and is silent behind it.
--   Df1.Buffers    bytes2word and the add_... functions; a buffer's size is a byte
--   Df1.Crc        calc_crc and compute_crc
--   Df1.Symbols    get_symbol
--   Df1.Receive    rcv_DF1, each of its loops and each part of its switch
--   Df1.Send       send_DF1
--   Df1.Addressing calc_address
--   Df1.Query      select_fnct
--   Df1.Command    read_A2, write_AA, write_AB and the reads and writes of values over them
--   Df1.Tag        read_Tag and write_Tag; the type double is a parameter
-- A tag is read by select_fnct, calc_address, read_A2, send_DF1 and rcv_DF1 in that order, and the
-- models call each other the same way.
--
-- Modbus is the client library of Modbus TCP, modbus/src (MBClient, MBCommon and MBErrCodes).
--   Modbus         the constants, IEC1131, the errors of MBERROR, _MBGetDataSize
--   Modbus.Words   _mbswap_16 and _mbswap_32, and numbers in memory
--   Modbus.Table   DefTable, and _MBGetPrefix, _MBGetAddress and _MBGetC_F_Index
--   Modbus.Request _MBBuild_Request, _MBBuild_Read_Request; below it Writes, _MBBuild_Write_Request
--   Modbus.Values  _MBGetValueAsInteger and _MBGetValueAsReal
--   Modbus.Link    _MBEmptyBuffer, _MBSendData, _MBRecvData, _MBSendData_WaitReply
--   Modbus.Client  _MBRead_Raw, _MBRead_Ext, _MBWrite_Ext and _MBMask_Write
-- Tuxeip is the library of EtherNet/IP, tuxeip/src.
--   Tuxeip         the types of data of AB.h
--   Tuxeip.Eip     Ethernet_IP.c: the header, the items, _AddHeader, _AddItem, _BuildRequest, and the
--                  functions that find the items of a reply
--   Tuxeip.Link    SendData.c: _CIPEmptyBuffer, _CipSendData, _CipRecvData, _CipSendData_WaitReply
--   Tuxeip.Session Ethernet_IP.c: _OpenSession, _RegisterSession, the lists, _SendData and
--                  _ConnectedSend
--   Tuxeip.Router  MR.c
--   Tuxeip.Manager CM.c, and the connections of AB.c
--   Tuxeip.Ioi     CIP_IOI.c: _BuildIOI and what it calls
--   Tuxeip.Lgx     LGX.c: requests, replies, _DecodeLGX, _ReadLgxData, _WriteLgxData
--   Tuxeip.Pccc    PLC.c: _GetPLCDataSize, _EncodePLCDataType, _DecodePLCDataType and _DecodePCCC
--   Tuxeip.Address PLC.c: _BuildLogicalBinaryAddress, on fuel of one round for each byte and one more
--   Tuxeip.Values  PLC.c and LGX.c: the values of a read as booleans, integers and floats
--   Tuxeip.Requests  PLC.c: the typed requests and the two ways of sending them
-- A typed read goes through Requests, Manager, Router, Session, Eip and Link in that order, and its
-- reply comes back through Pccc.
--
-- TuxAb is the daemon TuxAB, tuxsql/TuxAB/src, which reads the tags of PLCs and stores them.
--   TuxAb          PLC, TAG and PACKET; a LISTE is the list of what its elements point to, as the
--                  results on Sutil.ChainList allow
--   TuxAb.Rows     the rows of _GetPlc and _GetTag
--   TuxAb.Packets  compare_plc, AddPacket, Optimise_Plc and Optimise
--   TuxAb.Paths    ParsePath and GetIP
--   TuxAb.Daemon   the globals, the calls as the parameter Calls, FindSession, FindConnection
--   TuxAb.Sessions BuildSession, CheckSession, KillSession
--   TuxAb.Connections  BuildConnection(s), CheckConnection, KillConnection, KillAll
--   TuxAb.Logger   _UpdateTag, ReadTag, ReadPacket and Logger
--   TuxAb.Links, TuxAb.Quiet  the invariant of the pointers, and the times of Logger
-- Logger is run for a number of rounds, behind which Terminated is set.
--
-- TuxDf1 is the daemon TuxDf1, tuxsql/TuxDf1/src/TuxDf1.c, which reads and writes the tags of PLCs
-- through the driver that Df1 models.
--   TuxDf1         PLC and TAG
--   TuxDf1.Rows    the rows of _GetPlc and _GetTag
--   TuxDf1.Device  Df1_open_device and Df1_close_device of df1.c, the calls of the system and of the
--                  database as the parameter Os, and a command of the driver on the line of a device
--   TuxDf1.Logger  _UpdateTag, _UpdateWriteTag, _Read_WriteValue_Tag, BuildSocket, ReadTag, WriteTag,
--                  Logger and KillAll; a step has no result where a command runs out of fuel
--                  or past an array
--   TuxDf1.Wire, TuxDf1.Close  a tag from the database to the line and back, and closing
--
-- Sutil is the library of helpers, sutil/src; of it, the chained lists.
--   Sutil.ChainList  ChainList.c, on a heap that is a function from an address to an element; what
--                  malloc returns is an argument, and the loops run on fuel
--
-- In Modbus and Tuxeip, the socket calls are a parameter, Net, and so are Modbus's floats, Floats. A
-- client is the state of the link with the error that was set last.
--
-- Base holds what they share: tests on numbers, lists measured by them, words, bit operations, and
-- the functions of the C library that the parts use. The modules called Examples hold runs and tests.
--
-- Memory is a function from an offset to its byte, on a little-endian machine. The loops of df1.c
-- that wait for the line run on fuel. The results on sending ask for fuel of 15 more than the events
-- on the line, or of the answers, and those on receiving for 7 more than the bytes of the message;
-- a run without fuel has the result out_of_fuel, so that none of them holds for want of fuel. Where
-- the commands of df1.c would read or write outside an array, the result is overrun.
--
-- Not modelled: opening sockets, printing and the texts of errors; malloc is taken to
-- succeed, and `long` to be 32 bits wide, as the comments of MBCommon.h have it. The three-address
-- fields of PCCC and the list of identifiers of Logix in tuxeip, the rest of sutil, and the other daemons, the tools
-- and the viewers around the libraries are not modelled.
mod Base
pub mod Df1
pub mod Modbus
pub mod TuxAb
pub mod TuxDf1
pub mod Tuxeip
pub mod Sutil
